-- ===== src/Triage/Retries.antt =====
-- web/services/triage.py: what triage_one leaves of a row, and when the row is read again.
use viofosync.Prelude.{
  ℕ, zero, suc, ◌+◌, ◌<◌, ◌≤◌, ◌≡◌, refl, ◌∙◌, Bool, true, false, not, ◌&&◌, List, [], ◌∷◌, none,
  some, ◌⊎◌, inl, inr, arith, if◌then◌else◌, Bool-cases, count,
}
use viofosync.Queue.Table.{update, Rows, Rows-comp}
use viofosync.Queue.Row.{Row, Table, newest_capture, is_newest, is_active}
use viofosync.Queue.Ops.{has_id}
use viofosync.Triage.{
  Failure, is_offline_error, Reading, points, incomplete_recording, raises, backoff_s, is_past,
  is_target, Target, World, settle_row, defer_row, fail_row, is_newest_id, triage_one,
}

-- A change of a row that leaves its id, its name and its state.
abbrev pub Keeps : (Row → Row) → Type 0
Keeps f = (r : Row) → ((f r).id ≡ r.id) × ((f r).filename ≡ r.filename) × ((f r).state ≡ r.state)

newest_capture-update :
    (p : Row → Bool) (f : Row → Row) (t : Table)
    → Keeps f
    → newest_capture (update p f t) ≡ newest_capture t
unfolding newest_capture update
newest_capture-update p f [] keeps = refl
newest_capture-update p f (r ∷ t) keeps = elim (Bool-cases (p r)) [
  | inl hit ↦
      let (_, name, state) = keeps r in
      rw (hit, name, state, newest_capture-update p f t keeps) refl
  | inr miss ↦ rw (miss, newest_capture-update p f t keeps) refl
]

-- Whether a row is read does not depend on what else was triaged.
pub is_target-update :
    (p : Row → Bool) (f : Row → Row) (t : Table) (now : ℕ) (r : Row)
    → Keeps f
    → is_target now (update p f t) r ≡ is_target now t r
unfolding is_target is_active is_newest
is_target-update p f t now r keeps =
    rw (is_target, is_active, is_newest, newest_capture-update p f t keeps) refl

-- The camera answered.
abbrev pub Answers : Reading → Type 0
Answers (raises failure) = is_offline_error failure ≡ false
Answers (points n) = Unit
Answers incomplete_recording = Unit

-- A change after which a row is not read before a first backoff has passed.
abbrev pub Rests : ℕ → ℕ → (Row → Row) → Type 0
Rests now when f = Keeps f × ((t : Table) (r : Row) → is_target when t (f r) ≡ false)

and_false_end : (a b : Bool) → b ≡ false → (a && b) ≡ false
and_false_end a b e = ground arith

backoff_least : (attempts : ℕ) → 10 ≤ backoff_s attempts
backoff_least attempts = ground arith

module _ (now when : ℕ) (soon : when < now + 10) where
  resting : (attempts : ℕ) → is_past (some now) (backoff_s attempts) when ≡ false
  resting attempts = ground (arith, backoff_least attempts)

  settle_row-Rests : (n : ℕ) → Rests now when (settle_row now n)
  unfolding is_target
  settle_row-Rests n = ((λ r. (refl, refl, refl)), λ t r. ground arith)

  defer_row-Rests : Rests now when (defer_row now)
  unfolding is_target
  defer_row-Rests =
      ((λ r. (refl, refl, refl)), λ t r. rw (is_target, resting r.triage_attempts) (ground arith))

  fail_row-Rests : Rests now when (fail_row now)
  unfolding is_target
  fail_row-Rests = (
    (λ r. (refl, refl, refl)),
    λ t r. rw (is_target, resting (r.triage_attempts + 1)) (ground arith),
  )

  -- When the camera answers, the row rests, unless its skeleton could not be written.
  pub triage_one-Rests :
      (x : Target) (reading : Reading) (writes : Bool) (w : World)
      → Answers reading
      → let (w', returned) = triage_one now x reading writes w in
        (returned ≡ none)
        ⊎ ((f : Row → Row) × (w'.queue ≡ update (has_id x.id) f w.queue) × Rests now when f)
  unfolding triage_one
  triage_one-Rests x incomplete_recording writes w h =
      inr (elim (Bool-cases (is_newest_id x.id w.queue)) [
        | inl newest ↦ (defer_row now, rw newest refl, defer_row-Rests)
        | inr old ↦ (settle_row now 0, rw old refl, settle_row-Rests 0)
      ])
  triage_one-Rests x (raises failure) writes w h = inr (fail_row now, rw h refl, fail_row-Rests)
  triage_one-Rests x (points zero) writes w h = inr (settle_row now 0, refl, settle_row-Rests 0)
  triage_one-Rests x (points (suc n)) false w h = inl refl
  triage_one-Rests x (points (suc n)) true w h =
      inr (settle_row now (suc n), refl, settle_row-Rests (suc n))

-- The same clip read again and again, each time with the time and the failure.
abbrev pub try_all : Target → List (ℕ × Failure) → World → World
try_all x [] w = w
try_all x ((now, failure) ∷ fs) w = try_all x fs (triage_one now x (raises failure) true w).0

abbrev pub is_unreadable : ℕ × Failure → Bool
is_unreadable (now, failure) = not (is_offline_error failure)

-- The row of the clip has one attempt more for each failure that counts.
abbrev pub Tried : Target → ℕ → Row → Row → Type 0
Tried x failures r r' =
    (r'.id ≡ r.id)
    × (r'.triaged_at ≡ r.triaged_at)
    × (r'.triage_attempts
        ≡ (if has_id x.id r then r.triage_attempts + failures else r.triage_attempts))

Tried-comp :
    (x : Target) (m n : ℕ) (a b c : Row) → Tried x m a b → Tried x n b c → Tried x (m + n) a c
Tried-comp x m n a b c (i, t, e) (j, u, f) = (j ∙ i, u ∙ t, ground (arith, i, e, f))

fail_row-Tried :
    (now : ℕ) (x : Target) (r : Row) → has_id x.id r ≡ true → Tried x 1 r (fail_row now r)
fail_row-Tried now x r hit = (refl, refl, rw hit refl)

row-Tried :
    (now : ℕ) (x : Target) (r : Row) → Tried x 1 r (if has_id x.id r then fail_row now r else r)
row-Tried now x r = elim (Bool-cases (has_id x.id r)) [
  | inl hit ↦ rw hit (refl, refl, refl)
  | inr miss ↦ rw miss (refl, refl, refl)
]

update-Tried :
    (now : ℕ) (x : Target) (t : Table) → Rows (Tried x 1) t (update (has_id x.id) (fail_row now) t)
unfolding update
update-Tried now x [] = Rows.none_left
update-Tried now x (r ∷ t) = Rows.row (row-Tried now x r) (update-Tried now x t)

same-Tried : (x : Target) (t : Table) → Rows (Tried x 0) t t
same-Tried x [] = Rows.none_left
same-Tried x (r ∷ t) = Rows.row (refl, refl, ground arith) (same-Tried x t)

one_try :
    (now : ℕ) (failure : Failure) (x : Target) (w : World)
    → Rows
        (Tried x (if is_unreadable (now, failure) then 1 else 0))
        w.queue
        (triage_one now x (raises failure) true w).0.queue
unfolding triage_one
one_try now failure x w = elim (Bool-cases (is_offline_error failure)) [
  | inl offline ↦ rw offline (same-Tried x w.queue)
  | inr answered ↦ rw answered (update-Tried now x w.queue)
]

-- Failures that come one after another for a clip count exactly when the camera answered: in every
-- row with the clip's id the attempts grow by the number of the failures that are no camera-offline
-- error, the row stays untriaged when it was, and no other row changes its attempts.
pub try_all-Tried :
    (x : Target) (fs : List (ℕ × Failure)) (w : World)
    → Rows (Tried x (count is_unreadable fs)) w.queue (try_all x fs w).queue
try_all-Tried x [] w = same-Tried x w.queue
try_all-Tried x ((now, failure) ∷ fs) w =
    let first = (triage_one now x (raises failure) true w).0 in
    Rows-comp
      (Tried-comp x (if is_unreadable (now, failure) then 1 else 0) (count is_unreadable fs))
      (one_try now failure x w) (try_all-Tried x fs first)
