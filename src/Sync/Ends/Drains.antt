-- ===== src/Sync/Ends/Drains.antt =====
-- web/services/sync_worker.py: the drain loop takes as many turns as its clips have tries.
use mathlib.Core.List.{Memᴰ}
use mathlib.Core.Path.{subst}
use viofosync.Prelude.{
  ℕ, suc, ◌+◌, ◌-◌, ◌<◌, ◌≡◌, refl, sym, ap, ◌∙◌, ◌≢◌, Bool, true, false, not, ◌&&◌, List, [], ◌∷◌,
  Option, none, some, arith, length, count, count-le-length, ◌≤◌, inl, inr, Bool-cases,
}
use viofosync.Queue.Keys.{Unique}
use viofosync.Queue.Row.{pending, Row, Table, is_state}
use viofosync.Queue.Reconcile.{reconcile}
use viofosync.Queue.Reconcile.Ids.{reconcile-UniqueIds}
use viofosync.Prelude.Text.{Text}
use viofosync.Deletion.{Dashcam}
use viofosync.Sync.{
  Worker, ErrorKind, auth_failure, is_kind, clear_if, Done, disk_full_error, answers, download_one,
}
use viofosync.Sync.Outcomes.{id_of, done_after, Downloads}
use viofosync.Sync.Outcomes.Downloading.{download_one-Downloads}
use viofosync.Sync.Cycle.{
  Listing, listed, refused, unlisted, refresh_listing, relist_due, Lap, Exit, offline, out_of_laps,
  next_item, relist, after_lap, lap, drain_from,
}
use viofosync.Sync.Ends.{work, is_cancelled_lap, one_if, Downloads-work, Picks, next_item-Picks}

clear_if_queue : {C : Type 0} (kind : ErrorKind) (s : Worker C) → (clear_if kind s).queue ≡ s.queue
clear_if_queue kind s = elim (Bool-cases (is_kind kind s.last_error_kind)) [
  | inl e ↦ rw e refl
  | inr e ↦ rw e refl
]

-- The queue after a fetch of the listing.
abbrev listed_queue : ℕ → Listing → Table → Table
listed_queue now (listed recordings present) t = (reconcile now recordings present t).0
listed_queue now refused t = t
listed_queue now unlisted t = t

refresh_queue :
    {C : Type 0} (now ended_at cost_s : ℕ) (l : Listing) (s : Worker C)
    → (refresh_listing now ended_at cost_s l s).1.queue ≡ listed_queue now l s.queue
unfolding refresh_listing
refresh_queue now ended_at cost_s (listed recordings present) s = clear_if_queue auth_failure _
refresh_queue now ended_at cost_s refused s = refl
refresh_queue now ended_at cost_s unlisted s = refl

listed_queue-Unique :
    (now : ℕ) (l : Listing) (t : Table) → Unique id_of t → Unique id_of (listed_queue now l t)
listed_queue-Unique now (listed recordings present) t u =
    reconcile-UniqueIds now recordings present t u
listed_queue-Unique now refused t u = u
listed_queue-Unique now unlisted t u = u

relist-Unique :
    {C : Type 0} (l : Lap) (s : Worker C) → Unique id_of s.queue → Unique id_of (relist l s).queue
unfolding relist
relist-Unique l s u = elim (Bool-cases (relist_due l.clock s)) [
  | inl due ↦
      rw (relist, due)
        (subst (Unique id_of)
          (sym (refresh_queue l.meeting.now (l.clock + l.cost_s) l.cost_s l.listing s))
          (listed_queue-Unique l.meeting.now l.listing s.queue u))
  | inr early ↦ rw (relist, early) u
]

abbrev Result : Type 0 → Type 0
Result C = Exit × Bool × Worker C

-- The loop goes on well from a worker with little enough work.
abbrev EndsWithin : {C : Type 0} → ℕ → ℕ → (Worker C → Type 0) → (Worker C → Result C) → Type 0
EndsWithin {C} max_attempts laps later go_on =
    (s : Worker C)
    → Unique id_of s.queue
    → later s
    → work max_attempts s.queue < laps
    → (go_on s).0 ≡ out_of_laps
    → ⊥

module _ {C : Type 0} (cam : Dashcam C) (base_url : Text) (delete_after_download : Bool)
    (max_attempts : ℕ) where
  -- A turn whose listing, when one is fetched, adds no work to the queue that it meets.
  abbrev AddsNothing : Lap → Done × Worker C → (Worker C → Type 0) → Type 0
  AddsNothing l (disk_full_error, s) later = Unit
  AddsNothing l (answers true, s) later =
      (work max_attempts (relist l s).queue ≤ work max_attempts s.queue) × later (relist l s)
  AddsNothing l (answers false, s) later = later s

  abbrev pub QuietLap : Lap → Bool → Option Row → Worker C → (Worker C → Type 0) → Type 0
  QuietLap l did_any none s later = Unit
  QuietLap l did_any (some x) s later = elim (did_any && not l.reachable) [
    | true ↦ Unit
    | false ↦
        AddsNothing l (download_one cam base_url delete_after_download max_attempts x l.meeting s)
          later
  ]

  -- The turns of a drain in which no listing adds work: it makes no clip wait that did not.
  unfoldable pub Quiet : Bool → List Lap → Worker C → Type 0
  Quiet did_any [] s = Unit
  Quiet did_any (l ∷ laps) s = QuietLap l did_any (next_item l s) s (Quiet true laps)

  after_lap-Ends :
      (l : Lap) (did_any : Bool) (x : Row) (s : Worker C) (go_on : Worker C → Result C) (laps : ℕ)
      (later : Worker C → Type 0)
      → Unique id_of s.queue
      → Memᴰ x s.queue
      → is_state pending x ≡ true
      → work max_attempts s.queue + one_if (is_cancelled_lap l) < suc laps
      → EndsWithin max_attempts laps later go_on
      → (returns : Done) (s' : Worker C) → returns ≡ done_after l.meeting.fetch
      → Downloads max_attempts l.meeting.fetch x s.queue s'.queue
      → AddsNothing l (returns, s') later
      → (after_lap cam base_url delete_after_download max_attempts l did_any (returns, s') go_on).0
        ≡ out_of_laps
      → ⊥
  after_lap-Ends l did_any x s go_on laps later u m waits h within disk_full_error s' e d q out = cc
  after_lap-Ends l did_any x s go_on laps later u m waits h within (answers true) s' e d (q, qs)
        out =
      let (less, u') =
        Downloads-work max_attempts l.meeting.fetch x s.queue s'.queue u m waits (λ k. cc) d in
      within (relist l s') (relist-Unique l s' u') qs (omega (arith, less, h, q)) out
  after_lap-Ends l did_any x s go_on laps later u m waits h within (answers false) s' e d q out =
      let (less, u') =
        Downloads-work max_attempts l.meeting.fetch x s.queue s'.queue u m waits (λ k. cc) d in
      within s' u' q (omega (arith, less, h)) out

  lap-Ends :
      (l : Lap) (did_any : Bool) (o : Option Row) (s : Worker C) (go_on : Worker C → Result C)
      (laps : ℕ) (later : Worker C → Type 0)
      → Unique id_of s.queue
      → Picks s.queue o
      → QuietLap l did_any o s later
      → work max_attempts s.queue + one_if (is_cancelled_lap l) < suc laps
      → EndsWithin max_attempts laps later go_on
      → (lap cam base_url delete_after_download max_attempts l did_any o s go_on).0 ≡ out_of_laps
      → ⊥
  unfolding lap
  lap-Ends l did_any none s go_on laps later u p q h within out = cc
  lap-Ends l did_any (some x) s go_on laps later u (m, waits) q h within out =
      elim (Bool-cases (did_any && not l.reachable)) [
        | inl gone ↦
            let away : lap cam base_url delete_after_download max_attempts l did_any (some x) s
                  go_on
                ≡ (offline, did_any, s) =
              rw (lap, gone) refl in
            let shown : offline ≡ out_of_laps = sym (ap (λ (r : Result C). r.0) away) ∙ out in cc
        | inr there ↦
            let (returns, s') =
              download_one cam base_url delete_after_download max_attempts x l.meeting s in
            let (e, d) =
              download_one-Downloads cam base_url delete_after_download max_attempts x l.meeting s u
                m in
            let goes : lap cam base_url delete_after_download max_attempts l did_any (some x) s
                  go_on
                ≡ after_lap cam base_url delete_after_download max_attempts l did_any (returns, s')
                    go_on =
              rw (lap, there) refl in
            after_lap-Ends l did_any x s go_on laps later u m waits h within returns s' e d
              (rw (QuietLap, there) at q) (sym (ap (λ (r : Result C). r.0) goes) ∙ out)
      ]

  -- The drain ends: on a queue with unique ids, if no listing that is fetched after a download adds
  -- to the tries that the pending clips of the queue have left (as one does that brings a new clip or
  -- makes an old one wait again), it does not go on for more turns than those tries (the attempts
  -- that each pending clip has left, one at least), and one more for each download that is cancelled
  -- or put off.
  pub drain_from-Ends :
      (laps : List Lap) (did_any : Bool) (s : Worker C)
      → Unique id_of s.queue
      → Quiet did_any laps s
      → work max_attempts s.queue + count is_cancelled_lap laps < length laps
      → (drain_from cam base_url delete_after_download max_attempts did_any laps s).0 ≢ out_of_laps
  unfolding drain_from Quiet
  drain_from-Ends [] did_any s u quiet h = absurd (omega arith)
  drain_from-Ends (l ∷ laps) did_any s u quiet h =
      let few = count-le-length is_cancelled_lap laps in
      lap-Ends l did_any (next_item l s) s _ (length laps - count is_cancelled_lap laps)
        (Quiet true laps) u (next_item-Picks l s) quiet (omega (arith, few, h))
        (λ s' u' q less. drain_from-Ends laps true s' u' q (omega (arith, few, less)))

  -- A turn that fetches no listing, or one that leaves the queue as it is, is quiet.
  relist-adds_nothing :
      (l : Lap) (s : Worker C)
      → listed_queue l.meeting.now l.listing s.queue ≡ s.queue
      → work max_attempts (relist l s).queue ≤ work max_attempts s.queue
  unfolding relist
  relist-adds_nothing l s e = elim (Bool-cases (relist_due l.clock s)) [
    | inl due ↦
        let now = refresh_queue l.meeting.now (l.clock + l.cost_s) l.cost_s l.listing s in
        rw (relist, due, now, e) (omega arith)
    | inr early ↦ rw (relist, early) (omega arith)
  ]
