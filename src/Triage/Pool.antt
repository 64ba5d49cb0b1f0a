-- ===== src/Triage/Pool.antt =====
-- web/services/triage.py: a pass of run_pass. Three workers take the targets in their order; each
-- looks at the breaker when it starts a target, and counts the failures in a row when it is done.
-- The order in which workers start and end is open.
pub mod Breaker
pub mod Pass
use viofosync.Prelude.{
  ℕ, zero, suc, ◌+◌, ◌<◌, ◌≡◌, Bool, true, false, not, ◌&&◌, ◌||◌, List, [], ◌∷◌, Option, none,
  some, ltb, leb, ◌==◌, if◌then◌else◌, length, select,
}
use viofosync.Prelude.Int.{ℤ, pos, negsuc}
use viofosync.Prelude.Text.{Text, text_eq}
use viofosync.Triage.{Target, Reading, World, triage_one, select_targets, sweep_orphans}
use mathlib.Core.List.{Memᴰ}

abbrev pub max_concurrency : ℕ
max_concurrency = 3

abbrev pub abort_after_failures : ℕ
abort_after_failures = 8

pub record Pool : Type 0 where
  pub world : World
  pub waiting : List Target
  pub in_flight : List Target
  pub fail_streak : ℕ
  pub abort : Bool
  pub cancelled : Bool
  pub raised : Bool
  pub triaged : ℕ
  pub with_gps : ℕ

-- `run_pass` up to its pool.
unfoldable pub start_pass : ℕ → (removable : Text → Bool) → World → Pool
unfolding sweep_orphans select_targets
start_pass now removable w =
    let swept = (sweep_orphans removable w).0 in
    record {
      world = swept;
      waiting = select_targets none now swept.queue;
      in_flight = [];
      fail_streak = 0;
      abort = false;
      cancelled = false;
      raised = false;
      triaged = 0;
      with_gps = 0;
    }

-- A worker takes the next target: it reads the clip, unless the breaker or `cancel_check` says
-- otherwise.
abbrev pub take_up : Bool → Target → List Target → Pool → Pool
take_up cancel x xs p =
    if p.abort
    then record p { waiting = xs }
    else if cancel
    then record p { waiting = xs; cancelled = true }
    else record p { waiting = xs; in_flight = x ∷ p.in_flight }

abbrev pub begin_at : Bool → List Target → Pool → Pool
begin_at cancel [] p = p
begin_at cancel (x ∷ xs) p = take_up cancel x xs p

unfoldable pub begin_work : (cancel : Bool) → Pool → Pool
begin_work cancel p = begin_at cancel p.waiting p

abbrev pub without : Target → List Target → List Target
without x [] = []
without x (y ∷ ys) = if y.id == x.id then ys else y ∷ without x ys

-- The breaker and the sums, for what `triage_one` has returned.
abbrev pub tally : Option ℤ → Pool → Pool
tally none p = record p { raised = true }
tally (some (negsuc _)) p = record p {
  fail_streak = p.fail_streak + 1;
  abort = p.abort || leb abort_after_failures (p.fail_streak + 1);
}
tally (some (pos n)) p = record p {
  fail_streak = 0;
  triaged = p.triaged + 1;
  with_gps = if ltb 0 n then p.with_gps + 1 else p.with_gps;
}

-- A worker is done with a target.
unfoldable pub end_work : ℕ → Target → Reading → (writes : Bool) → Pool → Pool
unfolding triage_one
end_work now x reading writes p =
    let (world, returned) = triage_one now x reading writes p.world in
    tally returned (record p { world = world; in_flight = without x p.in_flight })

-- How many reads the worker starts: one or none.
abbrev pub starts_at : Bool → List Target → Pool → ℕ
starts_at cancel [] p = 0
starts_at cancel (x ∷ xs) p = if p.abort || cancel then 0 else 1

abbrev pub starts : Bool → Pool → ℕ
starts cancel p = starts_at cancel p.waiting p

-- The runs of a pass in which the camera's answers and the times at which they come are allowed,
-- counted by the reads that they start.
pub data Runs (allowed : ℕ → Reading → Type 0) : ℕ → Pool → Pool → Type 0 where
  stays : {p : Pool} → Runs allowed 0 p p
  begins :
      {n : ℕ} {p q : Pool} (cancel : Bool)
      → length p.in_flight < max_concurrency
      → Runs allowed n (begin_work cancel p) q
      → Runs allowed (starts cancel p + n) p q
  ends :
      {n : ℕ} {p q : Pool} (now : ℕ) (x : Target) (reading : Reading) (writes : Bool)
      → Memᴰ x p.in_flight
      → allowed now reading
      → Runs allowed n (end_work now x reading writes p) q
      → Runs allowed n p q
