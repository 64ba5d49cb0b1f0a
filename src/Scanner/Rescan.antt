-- ===== src/Scanner/Rescan.antt =====
-- web/services/scanner.py: what a scan keeps, adds and drops.
pub mod Flush
use mathlib.Core.List.{Memᴰ}
use mathlib.Core.Path.{subst}
use viofosync.Prelude.{
  ℕ, ◌≡◌, refl, sym, ap, ◌∙◌, ◌⊎◌, Bool, true, false, ◌&&◌, List, [], ◌∷◌, ◌++◌, map, some, arith,
  if◌then◌else◌, length, any, mem_of_any, inl, inr, Bool-cases,
}
use viofosync.Prelude.Text.{Text, text_eq, text_eq_refl, eq_of_text_eq}
use viofosync.Grouping.{Grouping}
use viofosync.Queue.Row.{Table}
use viofosync.Queue.Table.{update, mem-update, mem_of_mem-update, mem-select, mem_of_mem-select}
use viofosync.DeriveQueue.{Jobs, enqueue_missing}
use viofosync.Scanner.{ClipMeta, Disk, iter_clips}
use viofosync.Scanner.Index.{
  Entry, ClipIndex, has_path, refreshed, new_entry, upsert_clip, upsert_clips, prune,
  is_lock_queued, carry_locks, flush, scan,
}

-- The same row, later: a lock stays, and so does the mark of an examined track.
pub record Carries (e e' : Entry) : Type 0 where
  pub same_id : e'.id ≡ e.id
  pub same_path : e'.path ≡ e.path
  pub same_basename : e'.basename ≡ e.basename
  pub same_duration : e'.duration_s ≡ e.duration_s
  pub stays_locked : e.locked ≡ true → e'.locked ≡ true
  pub stays_examined : e.gps_examined ≡ true → e'.gps_examined ≡ true

Carries-refl : (e : Entry) → Carries e e
Carries-refl e = record {
  same_id = refl;
  same_path = refl;
  same_basename = refl;
  same_duration = refl;
  stays_locked = λ h. h;
  stays_examined = λ h. h;
}

Carries-trans : (a b c : Entry) → Carries a b → Carries b c → Carries a c
Carries-trans a b c p q = record {
  same_id = q.same_id ∙ p.same_id;
  same_path = q.same_path ∙ p.same_path;
  same_basename = q.same_basename ∙ p.same_basename;
  same_duration = q.same_duration ∙ p.same_duration;
  stays_locked = λ h. q.stays_locked (p.stays_locked h);
  stays_examined = λ h. q.stays_examined (p.stays_examined h);
}

-- A row of the table is still in the other one.
abbrev pub KeptIn : List Entry → Entry → Type 0
KeptIn rows e = (e' : Entry) × Memᴰ e' rows × Carries e e'

mem-append : (e n : Entry) (t : List Entry) → Memᴰ e t → Memᴰ e (t ++ n ∷ [])
mem-append e n [] m = elim m [ ]
mem-append e n (x ∷ t) (Memᴰ.head h) = Memᴰ.head h
mem-append e n (x ∷ t) (Memᴰ.tail m) = Memᴰ.tail (mem-append e n t m)

mem_last : (n : Entry) (t : List Entry) → Memᴰ n (t ++ n ∷ [])
mem_last n [] = Memᴰ.head refl
mem_last n (x ∷ t) = Memᴰ.tail (mem_last n t)

written :
    (p : Entry → Bool) (f : Entry → Entry) (e : Entry)
    → Carries e (f e)
    → Carries e (if p e then f e else e)
written p f e h = by_case (p e)
  where
    by_case : (b : Bool) → Carries e (if b then f e else e)
    by_case true = h
    by_case false = Carries-refl e

update-KeptIn :
    (p : Entry → Bool) (f : Entry → Entry) (t : List Entry) (e : Entry)
    → ((x : Entry) → Carries x (f x))
    → Memᴰ e t
    → KeptIn (update p f t) e
update-KeptIn p f t e h m = ((if p e then f e else e), mem-update p f m, written p f e (h e))

refreshed-Carries : (clip : ClipMeta) (now : ℕ) (e : Entry) → Carries e (refreshed clip now e)
refreshed-Carries clip now e = record {
  same_id = refl;
  same_path = refl;
  same_basename = refl;
  same_duration = refl;
  stays_locked = λ h. h;
  stays_examined = λ h. rw h refl;
}

upsert_clip-KeptIn :
    (clip : ClipMeta) (now : ℕ) (x : ClipIndex) (e : Entry)
    → Memᴰ e x.rows
    → KeptIn (upsert_clip clip now x).rows e
unfolding upsert_clip
upsert_clip-KeptIn clip now x e m = elim (Bool-cases (any (has_path clip.path) x.rows)) [
  | inl h ↦ rw h (
      update-KeptIn (has_path clip.path) (refreshed clip now) x.rows e (refreshed-Carries clip now)
        m)
  | inr h ↦ rw h (e, mem-append e _ x.rows m, Carries-refl e)
]

-- A row of the index has the path.
abbrev pub IsIndexed : List Entry → Text → Type 0
IsIndexed rows path = (e : Entry) × Memᴰ e rows × (e.path ≡ path)

upsert_clip-IsIndexed :
    (clip : ClipMeta) (now : ℕ) (x : ClipIndex) → IsIndexed (upsert_clip clip now x).rows clip.path
unfolding upsert_clip
upsert_clip-IsIndexed clip now x = elim (Bool-cases (any (has_path clip.path) x.rows)) [
  | inl h ↦
      let (e, m, p) = mem_of_any (has_path clip.path) x.rows h in
      let (e', m', c) =
        update-KeptIn (has_path clip.path) (refreshed clip now) x.rows e
          (refreshed-Carries clip now) m in
      rw h (e', m', c.same_path ∙ eq_of_text_eq e.path clip.path p)
  | inr h ↦
      rw h (new_entry x.next_id clip now, mem_last (new_entry x.next_id clip now) x.rows, refl)
]

upsert_clips-KeptIn :
    (clips : List ClipMeta) (now : ℕ) (x : ClipIndex) (e : Entry)
    → Memᴰ e x.rows
    → KeptIn (upsert_clips clips now x).rows e
unfolding upsert_clips
upsert_clips-KeptIn [] now x e m = (e, m, Carries-refl e)
upsert_clips-KeptIn (clip ∷ clips) now x e m =
    let (a, ma, ca) = upsert_clip-KeptIn clip now x e m in
    let (b, mb, cb) = upsert_clips-KeptIn clips now (upsert_clip clip now x) a ma in
    (b, mb, Carries-trans e a b ca cb)

upsert_clips-IsIndexed :
    (clips : List ClipMeta) (now : ℕ) (x : ClipIndex) (clip : ClipMeta)
    → Memᴰ clip clips
    → IsIndexed (upsert_clips clips now x).rows clip.path
unfolding upsert_clips
upsert_clips-IsIndexed [] now x clip m = elim m [ ]
upsert_clips-IsIndexed (c ∷ clips) now x clip (Memᴰ.head h) =
    let (a, ma, pa) = upsert_clip-IsIndexed c now x in
    let (b, mb, cb) = upsert_clips-KeptIn clips now (upsert_clip c now x) a ma in
    (b, mb, cb.same_path ∙ pa ∙ ap (λ (m : ClipMeta). m.path) (sym h))
upsert_clips-IsIndexed (c ∷ clips) now x clip (Memᴰ.tail m) =
    upsert_clips-IsIndexed clips now (upsert_clip c now x) clip m
