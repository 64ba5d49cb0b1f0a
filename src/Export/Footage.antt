-- ===== src/Export/Footage.antt =====
-- web/services/exporter.py and web/services/retention.py: what an export job reads, retention keeps.
use mathlib.Core.List.{Memᴰ}
use mathlib.Core.Path.{subst}
use viofosync.Prelude.{
  ℕ, ◌+◌, ◌*◌, ◌/◌, ◌≤◌, ◌<◌, ◌≡◌, ◌⊎◌, refl, ap, Bool, true, false, ◌&&◌, List, [], ◌∷◌, ◌++◌, map,
  Option, some, arith, ◌==◌, ==_refl, leb, if◌then◌else◌, any, All_mem, inl, inr, Bool-cases,
  le→leb,
}
use viofosync.Prelude.Text.{Text}
use viofosync.Queue.Table.{mem-select}
use viofosync.Retention.{Clip, Host, Store}
use viofosync.Retention.Evictions.{UniqueIds}
use viofosync.Retention.Space.{Rules}
use viofosync.Retention.Sweep.{Swept, sweep}
use viofosync.Retention.Safety.{sweep_spares}
use viofosync.Export.{
  Indexed, length_of, first_start, last_end, in_window, timeline_protect_margin_s,
}
use viofosync.Export.Jobs.{
  ExportJob, Exports, is_in, done, failed, Payload, with_ids, bare_list, with_segments, unreadable,
}
use viofosync.Export.Jobs.Protect.{is_unfinished, ids_between, ids_of_job, export_protect_ids}
use viofosync.Export.Jobs.Steps.{Reachable}
use viofosync.Export.Jobs.Framed.{Framed, Reachable-Framed}

-- The rows of the index that a job reads when it is run: those it names, or those that overlap the
-- window of its segments.
unfoldable pub reads : ExportJob → Indexed → Bool
reads j r = elim j.payload [
  | with_ids ids ↦ any (λ i. r.id == i) ids
  | bare_list ids ↦ any (λ i. r.id == i) ids
  | with_segments [] ↦ false
  | with_segments (g ∷ segs) ↦ in_window (first_start g segs) (last_end g segs) r
  | unreadable ↦ false
]

-- The row's length, if it is known, is within the margin.
abbrev pub IsShort : Indexed → Type 0
IsShort r = length_of r.duration ≤ timeline_protect_margin_s * 1000

window-margin :
    (lo hi : ℕ) (r : Indexed)
    → IsShort r
    → in_window lo hi r ≡ true
    → (leb (lo / 1000) (r.timestamp + timeline_protect_margin_s) && leb r.timestamp (hi / 1000))
      ≡ true
window-margin lo hi r short h =
    let starts : r.timestamp * 1000 < hi = ground arith in
    let reaches : lo < r.timestamp * 1000 + 600 * 1000 = ground arith in
    let below : lo / 1000 ≤ r.timestamp + 600 = omega arith in
    let above : r.timestamp ≤ hi / 1000 = omega arith in
    rw (le→leb (lo / 1000) (r.timestamp + 600) below, le→leb r.timestamp (hi / 1000) above) refl

abbrev Has : List ℕ → ℕ → Type 0
Has ids i = any (λ k. i == k) ids ≡ true

Has-map : (r : Indexed) (t : List Indexed) → Memᴰ r t → Has (map (λ x. x.id) t) r.id
Has-map r [] m = elim m [ ]
Has-map r (x ∷ t) (Memᴰ.head e) = rw (← e, ==_refl r.id) refl
Has-map r (x ∷ t) (Memᴰ.tail m) = let ih = Has-map r t m in ground arith

Has-append : (i : ℕ) (xs ys : List ℕ) → Has xs i ⊎ Has ys i → Has (xs ++ ys) i
Has-append i [] ys (inl h) = cc
Has-append i [] ys (inr h) = h
Has-append i (x ∷ xs) ys (inl h) = elim (Bool-cases (i == x)) [
  | inl e ↦ rw e refl
  | inr e ↦ rw e (Has-append i xs ys (inl (rw e at h)))
]
Has-append i (x ∷ xs) ys (inr h) = let ih = Has-append i xs ys (inr h) in ground arith

-- A row that a job reads is among the ids of that job.
reads-ids_of_job :
    (index : List Indexed) (j : ExportJob) (r : Indexed)
    → Framed j
    → IsShort r
    → Memᴰ r index
    → reads j r ≡ true
    → Has (ids_of_job index j) r.id
unfolding reads ids_of_job
reads-ids_of_job index j r framed short m h = by_payload j.payload refl h
  where
    by_payload :
        (p : Payload)
        → j.payload ≡ p
        → (elim p [
          | with_ids ids ↦ any (λ i. r.id == i) ids
          | bare_list ids ↦ any (λ i. r.id == i) ids
          | with_segments [] ↦ false
          | with_segments (g ∷ segs) ↦ in_window (first_start g segs) (last_end g segs) r
          | unreadable ↦ false
        ])
          ≡ true
        → Has
            (elim p [
              | with_ids (i ∷ ids) ↦ i ∷ ids
              | bare_list ids ↦ ids
              | unreadable ↦ []
              | _ ↦ ids_between j.clip_start j.clip_end index
            ])
            r.id
    by_payload (with_ids []) e h = cc
    by_payload (with_ids (i ∷ ids)) e h = h
    by_payload (bare_list ids) e h = h
    by_payload (with_segments []) e h = cc
    by_payload (with_segments (g ∷ segs)) e h =
        let (start, stop) = framed g segs e in
        rw (start, stop)
          (Has-map r _
            (mem-select _ index m (window-margin (first_start g segs) (last_end g segs) r short h)))
    by_payload unreadable e h = cc

reads-export_protect_ids :
    (index : List Indexed) (jobs : List ExportJob) (j : ExportJob) (r : Indexed)
    → Memᴰ j jobs
    → is_unfinished j ≡ true
    → Has (ids_of_job index j) r.id
    → Has (export_protect_ids index jobs) r.id
unfolding export_protect_ids
reads-export_protect_ids index [] j r m u h = elim m [ ]
reads-export_protect_ids index (k ∷ jobs) j r (Memᴰ.head e) u h =
    subst
      (λ x.
        Has
          (if is_unfinished x
            then ids_of_job index x ++ export_protect_ids index jobs
            else export_protect_ids index jobs)
          r.id)
      e (rw u (Has-append r.id (ids_of_job index j) (export_protect_ids index jobs) (inl h)))
reads-export_protect_ids index (k ∷ jobs) j r (Memᴰ.tail m) u h =
    let ih = reads-export_protect_ids index jobs j r m u h in
    elim (Bool-cases (is_unfinished k)) [
      | inl e ↦ rw e (Has-append r.id (ids_of_job index k) (export_protect_ids index jobs) (inr ih))
      | inr e ↦ rw e ih
    ]

-- A job that is neither done nor failed.
abbrev pub IsLive : ExportJob → Type 0
IsLive j = (is_in done j ≡ false) × (is_in failed j ≡ false)

live-unfinished : (j : ExportJob) → IsLive j → is_unfinished j ≡ true
live-unfinished j (d, f) = ground arith

-- The row of `clip_index`: the clip, and its camera and duration.
unfoldable pub indexed_as : (Clip → Option Text) → (Clip → Option ℕ) → Clip → Indexed
indexed_as camera duration c = record {
  id = c.id;
  path = c.path;
  camera = camera c;
  timestamp = c.timestamp;
  duration = duration c;
}

mem-map : (f : Clip → Indexed) (c : Clip) (t : List Clip) → Memᴰ c t → Memᴰ (f c) (map f t)
mem-map f c [] m = elim m [ ]
mem-map f c (x ∷ t) (Memᴰ.head e) = Memᴰ.head (ap f e)
mem-map f c (x ∷ t) (Memᴰ.tail m) = Memᴰ.tail (mem-map f c t m)

-- With the ids that the reached export jobs protect, whatever the rules, the clock and the file
-- system, a retention sweep returns and leaves in the index each clip that a job reads which is
-- neither done nor failed, if the clip's length, where it is known, is at most ten minutes: a clip that
-- the job names, or one that overlaps the window of its segments.
pub sweep_keeps_footage :
    {W : Type 0} (h : Host W) (rules : Rules) (now max_days : ℕ) (s : Store W) (c : Clip)
    (camera : Clip → Option Text) (duration : Clip → Option ℕ) (ex : Exports) (j : ExportJob)
    → UniqueIds s.clips
    → Memᴰ c s.clips
    → Reachable ex
    → Memᴰ j ex.jobs
    → IsLive j
    → reads j (indexed_as camera duration c) ≡ true
    → IsShort (indexed_as camera duration c)
    → (r : Store W × Option Swept) × (sweep h
          (record rules {
            protect_ids = export_protect_ids (map (indexed_as camera duration) s.clips) ex.jobs;
          })
          now
          max_days
          s
        ≡ some r)
      × Memᴰ c r.0.clips
unfolding indexed_as
sweep_keeps_footage h rules now max_days s c camera duration ex j unique m reached mj live reading
      short =
    let index = map (indexed_as camera duration) s.clips in
    let row = indexed_as camera duration c in
    let named =
      reads-ids_of_job index j row (All_mem Framed ex.jobs (Reachable-Framed ex reached) mj) short
        (mem-map (indexed_as camera duration) c s.clips m) reading in
    let listed : any (λ i. c.id == i) (export_protect_ids index ex.jobs) ≡ true =
      reads-export_protect_ids index ex.jobs j row mj (live-unfinished j live) named in
    sweep_spares h (record rules { protect_ids = export_protect_ids index ex.jobs }) now max_days s
      c unique m (ground arith)
