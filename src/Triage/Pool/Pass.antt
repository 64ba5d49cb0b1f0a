-- ===== src/Triage/Pool/Pass.antt =====
-- web/services/triage.py: after a pass in which the camera answered, none of its clips waits to be
-- read again at once, so the downloads are not held for them.
use mathlib.Core.List.{Memᴰ}
use mathlib.Core.Path.{subst}
use viofosync.Prelude.{
  ℕ, ◌+◌, ◌<◌, ◌≡◌, refl, sym, ◌∙◌, Bool, true, false, ◌||◌, List, [], ◌∷◌, Option, none, some,
  arith, ◌==◌, ==_iff, any, inl, inr, Bool-cases,
}
use viofosync.Prelude.Int.{ℤ, pos, negsuc}
use viofosync.Queue.Table.{update, mem_of_mem-update}
use viofosync.Queue.Row.{Row}
use viofosync.Queue.Ops.{has_id}
use viofosync.Triage.{Target, Reading, is_target, triage_one}
use viofosync.Triage.Retries.{is_target-update, Answers, Rests, triage_one-Rests}
use viofosync.Triage.Pool.{
  Pool, take_up, begin_at, begin_work, without, tally, end_work, Runs, stays, begins, ends,
}

abbrev pub lists : List Target → ℕ → Bool
lists xs i = any (λ x. x.id == i) xs

-- The camera answers, and no first backoff from then on has passed at the time in question.
abbrev pub AnswersAt : ℕ → ℕ → Reading → Type 0
AnswersAt when now reading = Answers reading × (when < now + 10)

-- Nothing stopped the pass.
abbrev pub IsWhole : Pool → Type 0
IsWhole p = (p.abort ≡ false) × (p.cancelled ≡ false) × (p.raised ≡ false)

-- The clips of the pass that would be read at the time are waiting for a worker or have one.
abbrev Covers : ℕ → List Target → Pool → Type 0
Covers when selected p =
    (r : Row)
    → Memᴰ r p.world.queue
    → is_target when p.world.queue r ≡ true
    → lists selected r.id ≡ true
    → (lists p.waiting r.id || lists p.in_flight r.id) ≡ true

or_assoc : (a b c : Bool) → ((a || b) || c) ≡ true → (b || (a || c)) ≡ true
or_assoc a b c h = ground arith

or_right : (a b c : Bool) → (a || b) ≡ true → (b ≡ true → c ≡ true) → (a || c) ≡ true
or_right a b c h f = ground arith

take_up-Covers :
    (when : ℕ) (selected : List Target) (cancel : Bool) (x : Target) (xs : List Target) (p : Pool)
    → p.waiting ≡ x ∷ xs
    → IsWhole (take_up cancel x xs p)
    → IsWhole p × (Covers when selected p → Covers when selected (take_up cancel x xs p))
take_up-Covers when selected cancel x xs p e w = elim (Bool-cases p.abort) [
  | inl broken ↦
      let skipped : take_up cancel x xs p ≡ record p { waiting = xs } = rw broken refl in
      absurd (let still = (subst IsWhole skipped w).0 in cc)
  | inr going ↦ elim (Bool-cases cancel) [
    | inl asked ↦
        let left : take_up cancel x xs p ≡ record p { waiting = xs; cancelled = true } =
          rw (going, asked) refl in
        absurd (let still = (subst IsWhole left w).1 in cc)
    | inr open_still ↦
        let taken : take_up cancel x xs p ≡ record p { waiting = xs; in_flight = x ∷ p.in_flight } =
          rw (going, open_still) refl in
        (
          subst IsWhole taken w,
          λ c. subst (Covers when selected) (sym taken) (λ r m h l.
              or_assoc (x.id == r.id) (lists xs r.id) (lists p.in_flight r.id)
                (subst (λ ws. (lists ws r.id || lists p.in_flight r.id) ≡ true) e (c r m h l))),
        )
  ]
]

begin_at-Covers :
    (when : ℕ) (selected : List Target) (cancel : Bool) (xs : List Target) (p : Pool)
    → p.waiting ≡ xs
    → IsWhole (begin_at cancel xs p)
    → IsWhole p × (Covers when selected p → Covers when selected (begin_at cancel xs p))
begin_at-Covers when selected cancel [] p e w = (w, λ c. c)
begin_at-Covers when selected cancel (x ∷ xs) p e w = take_up-Covers when selected cancel x xs p e w

lists-without :
    (x : Target) (xs : List Target) (i : ℕ)
    → (x.id == i) ≡ false
    → lists xs i ≡ true
    → lists (without x xs) i ≡ true
lists-without x [] i h l = l
lists-without x (y ∷ ys) i h l =
    ground (arith, lists-without x ys i h, ==_iff y.id x.id, ==_iff y.id i, ==_iff x.id i)

tally-IsWhole :
    (returned : Option ℤ) (p : Pool)
    → IsWhole (tally returned p)
    → IsWhole p × ((returned ≡ none) → ⊥)
tally-IsWhole none p w = absurd (let e = w.2 in cc)
tally-IsWhole (some (negsuc n)) p (a, b, c) = ((ground (arith, a), b, c), λ e. cc)
tally-IsWhole (some (pos n)) p w = (w, λ e. cc)

tally-same :
    (returned : Option ℤ) (p : Pool)
    → ((tally returned p).world ≡ p.world)
      × ((tally returned p).waiting ≡ p.waiting)
      × ((tally returned p).in_flight ≡ p.in_flight)
tally-same none p = (refl, refl, refl)
tally-same (some (negsuc n)) p = (refl, refl, refl)
tally-same (some (pos n)) p = (refl, refl, refl)

module _ (when : ℕ) (selected : List Target) where
  -- After the row of a target rests, the rest of the pass still covers what would be read.
  rest-Covers :
      (now : ℕ) (x : Target) (f : Row → Row) (p : Pool)
      → Rests now when f
      → Covers when selected p
      → (r : Row) → Memᴰ r (update (has_id x.id) f p.world.queue)
      → is_target when (update (has_id x.id) f p.world.queue) r ≡ true
      → lists selected r.id ≡ true
      → (lists p.waiting r.id || lists (without x p.in_flight) r.id) ≡ true
  rest-Covers now x f p (keeps, rests) c r m h l =
      let (s, ms, e) = mem_of_mem-update (has_id x.id) f p.world.queue m in
      elim (Bool-cases (has_id x.id s)) [
        | inl hit ↦
            let written : r ≡ f s = rw hit at e in
            let awake : is_target when (update (has_id x.id) f p.world.queue) (f s) ≡ true =
              subst (λ y. is_target when (update (has_id x.id) f p.world.queue) y ≡ true) written
                h in
            absurd (let asleep = rests (update (has_id x.id) f p.world.queue) s in cc)
        | inr miss ↦
            let same : r ≡ s = rw miss at e in
            let before : is_target when p.world.queue r ≡ true =
              sym (is_target-update (has_id x.id) f p.world.queue when r keeps) ∙ h in
            let covered = c r (subst (λ y. Memᴰ y p.world.queue) (sym same) ms) before l in
            let other : (x.id == r.id) ≡ false =
              subst (λ y. (x.id == y.id) ≡ false) (sym same)
                (ground (arith, ==_iff s.id x.id, ==_iff x.id s.id)) in
            or_right (lists p.waiting r.id) _ _ covered (lists-without x p.in_flight r.id other)
      ]

  end_work-Covers :
      (now : ℕ) (x : Target) (reading : Reading) (writes : Bool) (p : Pool)
      → AnswersAt when now reading
      → IsWhole (end_work now x reading writes p)
      → IsWhole p
        × (Covers when selected p → Covers when selected (end_work now x reading writes p))
  unfolding end_work
  end_work-Covers now x reading writes p (answers, soon) w =
      let (world, returned) = triage_one now x reading writes p.world in
      let p' = record p { world = world; in_flight = without x p.in_flight } in
      let (whole, went) = tally-IsWhole returned p' w in
      let (ew, ex, ei) = tally-same returned p' in
      elim (triage_one-Rests now when soon x reading writes p.world answers) [
        | inl stopped ↦ absurd (went stopped)
        | inr (f, e, rests) ↦ (
          whole,
          λ c r m h l.
              rw (ex, ei) (rest-Covers now x f p rests c r (rw (ew, e) at m) (rw (ew, e) at h) l),
        )
      ]

  run-Covers :
      (n : ℕ) (p q : Pool)
      → Runs (AnswersAt when) n p q
      → IsWhole q
      → IsWhole p × (Covers when selected p → Covers when selected q)
  unfolding begin_work
  run-Covers n p q stays w = (w, λ c. c)
  run-Covers n p q (begins {n = m} cancel free run) w =
      let (w', later) = run-Covers m (begin_work cancel p) q run w in
      let (w'', first) = begin_at-Covers when selected cancel p.waiting p refl w' in
      (w'', λ c. later (first c))
  run-Covers n p q (ends now x reading writes m answers run) w =
      let (w', later) = run-Covers n (end_work now x reading writes p) q run w in
      let (w'', first) = end_work-Covers now x reading writes p answers w' in
      (w'', λ c. later (first c))

-- A pass in which the camera answers every read, no skeleton fails to be written, and neither the
-- breaker nor a cancellation stops it, leaves none of the clips that it took to be read again: when
-- all are done, whatever the order of the three workers, no row of such a clip is a target at a
-- time less than ten seconds after each of its reads.
pub pass-targets :
    (when n : ℕ) (p q : Pool)
    → Runs (AnswersAt when) n p q
    → IsWhole q
    → q.waiting ≡ []
    → q.in_flight ≡ []
    → (r : Row) → Memᴰ r q.world.queue
    → lists p.waiting r.id ≡ true
    → is_target when q.world.queue r ≡ false
pass-targets when n p q run whole empty done r m l =
    elim (Bool-cases (is_target when q.world.queue r)) [
      | inr asleep ↦ asleep
      | inl awake ↦
          let start : Covers when p.waiting p = λ s ms h ls. rw ls refl in
          let covered = (run-Covers when p.waiting n p q run whole).1 start r m awake l in
          absurd (let none_left = rw (empty, done) at covered in cc)
    ]
