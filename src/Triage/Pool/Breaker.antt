-- ===== src/Triage/Pool/Breaker.antt =====
-- web/services/triage.py: how many reads a pass starts when none succeeds.
use viofosync.Prelude.{
  ℕ, suc, ◌+◌, ◌-◌, ◌≤◌, ◌<◌, ◌≡◌, refl, Bool, false, ◌||◌, List, [], ◌∷◌, some, arith, leb,
  if◌then◌else◌, length, inl, inr, Bool-cases,
}
use viofosync.Prelude.Int.{negsuc}
use viofosync.Prelude.Text.{Text}
use viofosync.Triage.{Target, Reading, points, incomplete_recording, raises, World, triage_one}
use viofosync.Triage.Pool.{
  max_concurrency, abort_after_failures, Pool, start_pass, take_up, begin_at, begin_work, without,
  end_work, starts_at, Runs, stays, begins, ends,
}

-- The camera does not give a track.
abbrev pub Fails : ℕ → Reading → Type 0
Fails now (points n) = ⊥
Fails now incomplete_recording = Unit
Fails now (raises failure) = Unit

-- The reads that a pool can still start.
abbrev room_of : Bool → ℕ → ℕ → ℕ
room_of abort streak busy =
    if abort then 0 else abort_after_failures + (max_concurrency - 1) - (streak + busy)

abbrev room : Pool → ℕ
room p = room_of p.abort p.fail_streak (length p.in_flight)

abbrev IsArmed : Bool → ℕ → Type 0
IsArmed abort streak = abort ≡ false → streak < abort_after_failures

abbrev Armed : Pool → Type 0
Armed p = IsArmed p.abort p.fail_streak

one_failure :
    (abort : Bool) (streak busy busy' : ℕ)
    → IsArmed abort streak
    → busy ≤ suc busy'
    → let abort' = abort || leb abort_after_failures (streak + 1) in
      IsArmed abort' (streak + 1) × (room_of abort' (streak + 1) busy' ≤ room_of abort streak busy)
one_failure abort streak busy busy' armed le = ((λ e. ground arith), ground (arith, armed))

length-without : (x : Target) (xs : List Target) → length xs ≤ suc (length (without x xs))
length-without x [] = omega arith
length-without x (y ∷ ys) = ground (arith, length-without x ys)

failed_step :
    (now : ℕ) (x : Target) (reading : Reading) (writes : Bool) (w : World)
    → Fails now reading
    → (triage_one now x reading writes w).1 ≡ some (negsuc 0)
unfolding triage_one
failed_step now x (points n) writes w h = absurd h
failed_step now x incomplete_recording writes w h = refl
failed_step now x (raises failure) writes w h = refl

end_work-tally :
    (now : ℕ) (x : Target) (reading : Reading) (writes : Bool) (p : Pool)
    → Fails now reading
    → let p' = end_work now x reading writes p in
      (p'.fail_streak ≡ p.fail_streak + 1)
      × (p'.abort ≡ (p.abort || leb abort_after_failures (p.fail_streak + 1)))
      × (p'.in_flight ≡ without x p.in_flight)
unfolding end_work
end_work-tally now x reading writes p h =
    let e = failed_step now x reading writes p.world h in
    (rw (end_work, e) refl, rw (end_work, e) refl, rw (end_work, e) refl)

take_up-room :
    (cancel : Bool) (x : Target) (xs : List Target) (p : Pool)
    → Armed p
    → length p.in_flight < max_concurrency
    → Armed (take_up cancel x xs p)
      × ((if p.abort || cancel then 0 else 1) + room (take_up cancel x xs p) ≤ room p)
take_up-room cancel x xs p armed free = elim (Bool-cases p.abort) [
  | inl broken ↦ rw broken ((λ e. absurd cc), omega arith)
  | inr closed ↦ elim (Bool-cases cancel) [
    | inl asked ↦ rw (closed, asked) ((λ _. armed closed), omega arith)
    | inr go ↦ rw (closed, go) ((λ _. armed closed), omega (arith, armed closed))
  ]
]

begin_at-room :
    (cancel : Bool) (xs : List Target) (p : Pool)
    → Armed p
    → length p.in_flight < max_concurrency
    → Armed (begin_at cancel xs p) × (starts_at cancel xs p + room (begin_at cancel xs p) ≤ room p)
begin_at-room cancel [] p armed free = (armed, omega arith)
begin_at-room cancel (x ∷ xs) p armed free = take_up-room cancel x xs p armed free

end_work-room :
    (now : ℕ) (x : Target) (reading : Reading) (writes : Bool) (p : Pool)
    → Fails now reading
    → Armed p
    → let p' = end_work now x reading writes p in Armed p' × (room p' ≤ room p)
end_work-room now x reading writes p h armed =
    let (streak, breaker, left) = end_work-tally now x reading writes p h in
    rw (streak, breaker, left)
      (one_failure p.abort p.fail_streak (length p.in_flight) (length (without x p.in_flight)) armed
        (length-without x p.in_flight))

reads-room : (n : ℕ) (p q : Pool) → Armed p → Runs Fails n p q → n ≤ room p
unfolding begin_work
reads-room n p q armed stays = omega arith
reads-room n p q armed (begins {n = m} cancel free run) =
    let (armed', le) = begin_at-room cancel p.waiting p armed free in
    omega (arith, le, reads-room m (begin_work cancel p) q armed' run)
reads-room n p q armed (ends now x reading writes m h run) =
    let (armed', le) = end_work-room now x reading writes p h armed in
    omega (arith, le, reads-room n (end_work now x reading writes p) q armed' run)

-- From the start of a pass, whatever the order in which the three workers start and end, if every
-- read fails, at most ten reads are started: eight until the breaker opens, and two more that the
-- other workers had already begun.
pub start_pass-reads :
    (now : ℕ) (removable : Text → Bool) (w : World) (n : ℕ) (q : Pool)
    → Runs Fails n (start_pass now removable w) q
    → n ≤ abort_after_failures + (max_concurrency - 1)
unfolding start_pass
start_pass-reads now removable w n q run =
    reads-room n (start_pass now removable w) q (λ _. omega arith) run
