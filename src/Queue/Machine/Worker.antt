-- ===== src/Queue/Machine/Worker.antt =====
-- The marks that the download worker sets on a clip in turn, and the retry budget they share.
use viofosync.Prelude.{
  ℕ, zero, suc, ◌+◌, ◌-◌, ◌≡◌, refl, ap, ◌∙◌, Bool, true, [], ◌∷◌, Option, none, some, arith, leb,
  if◌then◌else◌, Bool-cases, inl, inr, All,
}
use viofosync.Prelude.Text.{Text}
use viofosync.Queue.Table.{update}
use viofosync.Queue.Row.{State, pending, failed, Row, Table}
use viofosync.Queue.Ops.{
  has_id, start, hand_back, mark_downloading, mark_cancelled, attempts_of, failure_state,
  mark_transient_failure,
}

-- What a download that is cancelled leaves of the row.
abbrev pub returned : ℕ → Row → Row
returned now r = record r {
  state = pending;
  started_at = none;
  last_error = none;
  last_attempt_at = some now;
}

hand_back-start : (now : ℕ) (r : Row) → hand_back (start now r) ≡ returned now r
hand_back-start now r =
    let e : (r.attempts + 1 - 1 ≡ r.attempts) = omega arith in
    ap (λ n. record (returned now r) { attempts = n }) e

pub update-update :
    (p : Row → Bool) (f g : Row → Row) (t : Table)
    → ((r : Row) → p (f r) ≡ p r)
    → update p g (update p f t) ≡ update p (λ r. g (f r)) t
unfolding update
update-update p f g [] h = refl
update-update p f g (r ∷ t) h = elim (Bool-cases (p r)) [
  | inl e ↦
      let e' : (p (f r) ≡ true) = h r ∙ e in
      rw (e, e') (ap (◌∷◌ (g (f r))) (update-update p f g t h))
  | inr e ↦ rw (e, e) (ap (◌∷◌ r) (update-update p f g t h))
]

update_ext :
    (p : Row → Bool) (f g : Row → Row) (t : Table)
    → ((r : Row) → f r ≡ g r)
    → update p f t ≡ update p g t
unfolding update
update_ext p f g [] h = refl
update_ext p f g (r ∷ t) h = rw (h r, update_ext p f g t h) refl

-- A download that starts and is cancelled costs no attempt: only the row's state, its error and
-- its times of the start and of the last attempt are written, and no other row.
pub mark_cancelled-mark_downloading :
    (now item : ℕ) (t : Table)
    → mark_cancelled item (mark_downloading now item t) ≡ update (has_id item) (returned now) t
unfolding mark_cancelled mark_downloading
mark_cancelled-mark_downloading now item t =
    update-update (has_id item) (start now) hand_back t (λ r. refl)
    ∙ update_ext (has_id item) (λ r. hand_back (start now r)) (returned now) t (hand_back-start now)

attempts_of-update :
    (item : ℕ) (f : Row → Row) (k : ℕ → ℕ) (n : ℕ) (t : Table)
    → ((r : Row) → (f r).id ≡ r.id)
    → ((r : Row) → (f r).attempts ≡ k r.attempts)
    → attempts_of item t ≡ some n
    → attempts_of item (update (has_id item) f t) ≡ some (k n)
unfolding attempts_of update
attempts_of-update item f k n [] hi ha h = cc
attempts_of-update item f k n (r ∷ t) hi ha h = elim (Bool-cases (has_id item r)) [
  | inl e ↦
      let e' : (has_id item (f r) ≡ true) = rw (hi r) e in
      let same : (some r.attempts ≡ some n) = rw e at h in
      rw (e, e', ha r) (ap (λ (o : Option ℕ). elim o [ none ↦ none | some m ↦ some (k m) ]) same)
  | inr e ↦
      let later : (attempts_of item t ≡ some n) = rw e at h in
      rw (e, e) (attempts_of-update item f k n t hi ha later)
]

-- A download that starts and fails, as the worker's two statements in turn.
unfoldable pub fail_once : ℕ → ℕ → Text → ℕ → Table → Table × State
unfolding mark_downloading mark_transient_failure
fail_once now item error max_attempts t =
    mark_transient_failure item error max_attempts (mark_downloading now item t)

-- Downloads of one clip that all fail.
unfoldable pub fail_times : ℕ → ℕ → ℕ → Text → ℕ → Table → Table
unfolding fail_once
fail_times zero now item error max_attempts t = t
fail_times (suc n) now item error max_attempts t =
    (fail_once now item error max_attempts (fail_times n now item error max_attempts t)).0

pub attempts_of-mark_downloading :
    (now item n : ℕ) (t : Table)
    → attempts_of item t ≡ some n
    → attempts_of item (mark_downloading now item t) ≡ some (n + 1)
unfolding mark_downloading
attempts_of-mark_downloading now item n t h =
    attempts_of-update item (start now) (λ m. m + 1) n t (λ r. refl) (λ r. refl) h

attempts_of-fail_once :
    (now item : ℕ) (error : Text) (max_attempts n : ℕ) (t : Table)
    → attempts_of item t ≡ some n
    → attempts_of item (fail_once now item error max_attempts t).0 ≡ some (n + 1)
unfolding fail_once mark_transient_failure
attempts_of-fail_once now item error max_attempts n t h =
    attempts_of-update item _ (λ m. m) (n + 1) (mark_downloading now item t) (λ r. refl) (λ r. refl)
      (attempts_of-mark_downloading now item n t h)

attempts_of-fail_times :
    (k now item : ℕ) (error : Text) (max_attempts n : ℕ) (t : Table)
    → attempts_of item t ≡ some n
    → attempts_of item (fail_times k now item error max_attempts t) ≡ some (n + k)
unfolding fail_times
attempts_of-fail_times zero now item error max_attempts n t h =
    let e : (n ≡ n + 0) = omega arith in h ∙ ap some e
attempts_of-fail_times (suc k) now item error max_attempts n t h =
    let e : (n + k + 1 ≡ n + suc k) = omega arith in
    attempts_of-fail_once now item error max_attempts (n + k) _
      (attempts_of-fail_times k now item error max_attempts n t h)
    ∙ ap some e

-- A row of the clip, by its state.
abbrev pub StandsAt : ℕ → State → Row → Type 0
StandsAt item state r = has_id item r ≡ true → r.state ≡ state

update-StandsAt :
    (item : ℕ) (f : Row → Row) (state : State) (t : Table)
    → ((r : Row) → (f r).state ≡ state)
    → All (StandsAt item state) (update (has_id item) f t)
unfolding update
update-StandsAt item f state [] h = tt
update-StandsAt item f state (r ∷ t) h = (
  elim (Bool-cases (has_id item r)) [ inl e ↦ rw e (λ k. h r) | inr e ↦ rw e (λ k. absurd cc) ],
  update-StandsAt item f state t h,
)

-- The retry budget. When a clip that has made `n` attempts fails `k` times and once more, its row has
-- `n + k + 1` attempts, and it is `failed` exactly when that attempt reached `max_attempts`, and
-- `pending` before.
pub fail_times_budget :
    (k now item : ℕ) (error : Text) (max_attempts n : ℕ) (t : Table)
    → attempts_of item t ≡ some n
    → let t' = fail_times (suc k) now item error max_attempts t in
      (attempts_of item t' ≡ some (n + suc k))
      × All
          (λ r.
            has_id item r ≡ true
            → r.state ≡ (if leb max_attempts (n + suc k) then failed else pending))
          t'
unfolding fail_times fail_once mark_transient_failure failure_state
fail_times_budget k now item error max_attempts n t h =
    let before = attempts_of-fail_times k now item error max_attempts n t h in
    let marked = attempts_of-mark_downloading now item (n + k) _ before in
    let e : (n + k + 1 ≡ n + suc k) = omega arith in
    (
      attempts_of-fail_times (suc k) now item error max_attempts n t h,
      update-StandsAt item _ _ _ (λ r. rw (marked, e) refl),
    )
