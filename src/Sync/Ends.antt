-- ===== src/Sync/Ends.antt =====
-- web/services/sync_worker.py: the drain loop ends.
pub mod Drains
use mathlib.Core.List.{Memᴰ}
use mathlib.Core.Path.{subst}
use viofosync.Prelude.{
  ℕ, suc, ◌+◌, ◌-◌, ◌≤◌, ◌<◌, ◌≡◌, refl, sym, ap, ◌∙◌, ◌≢◌, Bool, true, false, not, ◌&&◌, ◌||◌,
  List, [], ◌∷◌, Option, none, some, arith, leb, if◌then◌else◌, length, count, count-le-length, All,
  inl, inr, Bool-cases,
}
use viofosync.Queue.Keys.{Unique, update-Unique, sum, sum-update}
use viofosync.Queue.Row.{State, pending, failed, Row, Table, state_eq, is_state}
use viofosync.Queue.Ops.{has_id}
use viofosync.Queue.Pick.{is_eligible, next_pending}
use viofosync.Queue.Pick.Choice.{IsPick, next_pending-IsPick}
use viofosync.Prelude.Text.{Text}
use viofosync.Deletion.{Dashcam}
use viofosync.Sync.{
  Worker, ErrorKind, is_kind, clear_if, Fetched, fetched, download_cancelled, download_deferred,
  os_error, other_error, Done, disk_full_error, answers, download_one,
}
use viofosync.Sync.Outcomes.{
  id_of, is_cancelled, done_after, state_after, attempts_after, Downloads,
}
use viofosync.Sync.Outcomes.Downloading.{download_one-Downloads}
use viofosync.Sync.Cycle.{
  Listing, listed, refused, unlisted, refresh_listing, relist_due, Lap, Exit, offline, out_of_laps,
  next_item, relist, after_lap, lap, drain_from,
}

-- The downloads that a pending row can still take: at least one.
abbrev tries_left : ℕ → State → ℕ → ℕ
tries_left max_attempts state attempts =
    if state_eq state pending then 1 + (max_attempts - 1 - attempts) else 0

abbrev pub tries : ℕ → Row → ℕ
tries max_attempts r = tries_left max_attempts r.state r.attempts

unfoldable pub work : ℕ → Table → ℕ
unfolding sum
work max_attempts t = sum (tries max_attempts) t

abbrev pub is_cancelled_lap : Lap → Bool
is_cancelled_lap u = is_cancelled u.meeting.fetch

abbrev one_if : Bool → ℕ
one_if b = if b then 1 else 0

fill_work :
    (max_attempts a : ℕ)
    → suc (tries_left max_attempts (if leb max_attempts (a + 1) then failed else pending) (a + 1))
      ≤ 1 + (max_attempts - 1 - a)
fill_work max_attempts a = elim (Bool-cases (leb max_attempts (a + 1))) [
  | inl last ↦ rw last (omega arith)
  | inr more ↦ rw more (ground arith)
]

outcome_work :
    (max_attempts a : ℕ) (fetch : Fetched)
    → (done_after fetch ≡ disk_full_error → ⊥)
    → suc (tries_left max_attempts (state_after max_attempts fetch a) (attempts_after fetch a))
      ≤ 1 + (max_attempts - 1 - a) + one_if (is_cancelled fetch)
outcome_work max_attempts a (fetched true) h = omega arith
outcome_work max_attempts a (fetched false) h = omega (arith, fill_work max_attempts a)
outcome_work max_attempts a download_cancelled h = omega arith
outcome_work max_attempts a download_deferred h = omega arith
outcome_work max_attempts a (os_error true message) h = absurd (h refl)
outcome_work max_attempts a (os_error false message) h = omega (arith, fill_work max_attempts a)
outcome_work max_attempts a (other_error message) h = omega (arith, fill_work max_attempts a)

-- A download that does not stop the drain uses up a try of the queue, or was cancelled.
Downloads-work :
    (max_attempts : ℕ) (fetch : Fetched) (x : Row) (t t' : Table)
    → Unique id_of t
    → Memᴰ x t
    → is_state pending x ≡ true
    → (done_after fetch ≡ disk_full_error → ⊥)
    → Downloads max_attempts fetch x t t'
    → (suc (work max_attempts t') ≤ work max_attempts t + one_if (is_cancelled fetch))
      × Unique id_of t'
unfolding work
Downloads-work max_attempts fetch x t t' u m waits goes (f, e, keeps, es, ea) =
    let moved = sum-update id_of (tries max_attempts) f x t u m in
    let before : tries max_attempts x ≡ 1 + (max_attempts - 1 - x.attempts) = rw waits refl in
    let after : suc (tries max_attempts (f x))
        ≤ 1 + (max_attempts - 1 - x.attempts) + one_if (is_cancelled fetch) =
      rw (es, ea) (outcome_work max_attempts x.attempts fetch goes) in
    (
      rw e (omega (arith, moved, before, after)),
      subst (Unique id_of) (sym e) (update-Unique id_of (has_id x.id) f keeps t u),
    )

eligible-pending :
    (u : Lap) (t : Table) (x : Row)
    → is_eligible u.scope u.triage_gate true t x ≡ true
    → is_state pending x ≡ true
unfolding is_eligible
eligible-pending u t x h = ground arith

abbrev Picks : Table → Option Row → Type 0
Picks t none = Unit
Picks t (some x) = Memᴰ x t × (is_state pending x ≡ true)

next_item-Picks : {C : Type 0} (u : Lap) (s : Worker C) → Picks s.queue (next_item u s)
next_item-Picks u s = elim (Bool-cases (u.stop || u.paused)) [
  | inl halted ↦ rw halted tt
  | inr running ↦ rw running (
      of_pick (next_pending u.scope u.triage_gate true s.queue)
        (next_pending-IsPick u.scope u.triage_gate true s.queue))
]
  where
    of_pick :
        (o : Option Row)
        → IsPick (is_eligible u.scope u.triage_gate true s.queue) s.queue o
        → Picks s.queue o
    of_pick none h = tt
    of_pick (some x) (m, e, first) = (m, eligible-pending u s.queue x e)
