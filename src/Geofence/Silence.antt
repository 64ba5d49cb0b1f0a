-- ===== src/Geofence/Silence.antt =====
-- What `shutdown_tails` of geofence.py takes for a shutdown.
use mathlib.Core.List.{Memᴰ}
use mathlib.Core.Path.{subst}
use mathlib.Core.Option.{none-ne-some, some-injective}
use viofosync.Prelude.{
  ℕ, ◌+◌, ◌≤◌, ◌<◌, ◌≡◌, refl, sym, ap, Bool, true, false, not, ◌&&◌, List, [], ◌∷◌, map, Option,
  none, some, arith, leb, ltb, any, All, All-imp, Bool-cases, inl, inr, ◌⊎◌,
}
use viofosync.Prelude.Text.{Text}
use viofosync.Queue.Row.{Row, Table}
use viofosync.Geofence.{
  Listed, by_time, with_time, day_listing, on_day, time_of, times, run_end, tail_gap_s, tail_cap_s,
  tail_slack_s, nominal_clip_s, Span, Verdict, ordinary, undecided, tail, arrives, judge,
}

-- In order of time.
abbrev pub Sorted : List ℕ → Type 0
Sorted [] = Unit
Sorted (t ∷ ts) = All (λ u. t ≤ u) ts × Sorted ts

by_time-All :
    (P : ℕ → Type 0) (a : Listed) (rows : List Listed)
    → P (time_of a)
    → All P (map time_of rows)
    → All P (map time_of (by_time a rows))
unfolding by_time
by_time-All P a [] p h = (p, tt)
by_time-All P (t, r) ((u, s) ∷ rows) p (q, h) = elim (Bool-cases (ltb u t)) [
  | inl e ↦ rw e (q, by_time-All P (t, r) rows p h)
  | inr e ↦ rw e (p, (q, h))
]

by_time-Sorted :
    (a : Listed) (rows : List Listed)
    → Sorted (map time_of rows)
    → Sorted (map time_of (by_time a rows))
unfolding by_time
by_time-Sorted a [] h = (tt, tt)
by_time-Sorted (t, r) ((u, s) ∷ rows) (q, h) = elim (Bool-cases (ltb u t)) [
  | inl e ↦
      let le : u ≤ t = ground arith in
      rw e (by_time-All (λ v. u ≤ v) (t, r) rows le q, by_time-Sorted (t, r) rows h)
  | inr e ↦
      let le : t ≤ u = ground arith in
      rw e ((le, All-imp (map time_of rows) (λ v k. omega (arith, k, le)) q), (q, h))
]

with_time-Sorted :
    (o : Option ℕ) (r : Row) (rows : List Listed)
    → Sorted (map time_of rows)
    → Sorted (map time_of (with_time o r rows))
with_time-Sorted none r rows h = h
with_time-Sorted (some t) r rows h = by_time-Sorted (t, r) rows h

pub day_listing-Sorted : (date : Text) (t : Table) → Sorted (map time_of (day_listing date t))
unfolding day_listing
day_listing-Sorted date [] = tt
day_listing-Sorted date (r ∷ t) = elim (Bool-cases (on_day date r)) [
  | inl e ↦ rw e (with_time-Sorted r.recorded_at r (day_listing date t) (day_listing-Sorted date t))
  | inr e ↦ rw e (day_listing-Sorted date t)
]

pub all_times : (rows : List Listed) → times (λ r. true) rows ≡ map time_of rows
unfolding times
all_times [] = refl
all_times (a ∷ rows) = ap (◌∷◌ (time_of a)) (unfold times in all_times rows)

-- Nothing was recorded in the silence after `last`.
abbrev pub Silent : ℕ → ℕ → Type 0
Silent last t = (t ≤ last) ⊎ (last + tail_gap_s < t)

-- The two outcomes for the next file.
run_end-gap :
    (last t : ℕ) (ts : List ℕ)
    → ltb (last + tail_gap_s) t ≡ true
    → run_end last (t ∷ ts) ≡ (last, true)
unfolding run_end
run_end-gap last t ts e = rw e refl

run_end-next :
    (last t : ℕ) (ts : List ℕ)
    → ltb (last + tail_gap_s) t ≡ false
    → run_end last (t ∷ ts) ≡ run_end t ts
unfolding run_end
run_end-next last t ts e = rw e refl

abbrev pub Ended : ℕ → List ℕ → ℕ × Bool → Type 0
Ended last ts r =
    (last ≤ r.0) × All (Silent r.0) ts × (r.1 ≡ true → (u : ℕ) × Memᴰ u ts × (r.0 + tail_gap_s < u))

-- The run ends at a file after which nothing was recorded for longer than the gap, and a proof of
-- that silence is a file after it.
pub run_end-Ended : (last : ℕ) (ts : List ℕ) → Sorted (last ∷ ts) → Ended last ts (run_end last ts)
run_end-Ended last [] h = unfold run_end in (omega arith, tt, λ e. absurd cc)
run_end-Ended last (t ∷ ts) ((le, h), (below, s)) = elim (Bool-cases (ltb (last + tail_gap_s) t)) [
  | inl e ↦
      let gap : last + tail_gap_s < t = ground arith in
      subst (Ended last (t ∷ ts)) (sym (run_end-gap last t ts e)) (
        omega arith,
        (inr gap, All-imp ts (λ u k. inr (omega (arith, k, gap))) below),
        λ k. (t, Memᴰ.head refl, gap),
      )
  | inr e ↦
      let (more, silent, later) = run_end-Ended t ts (below, s) in
      subst (Ended last (t ∷ ts)) (sym (run_end-next last t ts e)) (
        omega (arith, more, le),
        (inl more, silent),
        λ k. let (u, m, far) = later k in (u, Memᴰ.tail m, far),
      )
]

unfoldable pub span_of : Verdict → Option Span
span_of ordinary = none
span_of (undecided s) = none
span_of (tail s) = some s

-- What a tail says of the run's end.
abbrev pub Confirmed : List ℕ → ℕ → ℕ → ℕ × Bool → Span → Type 0
Confirmed journey_ends now ss r s =
    (s ≡ (ss, r.0 + nominal_clip_s))
    × (r.0 ≤ ss + tail_cap_s)
    × (arrives journey_ends ss ≡ true)
    × ((r.1 ≡ true) ⊎ (r.0 + tail_gap_s + tail_slack_s ≤ now))

pub judge-Confirmed :
    (untriaged_ts journey_ends : List ℕ) (now ss : ℕ) (r : ℕ × Bool) (s : Span)
    → span_of (judge untriaged_ts journey_ends now ss r) ≡ some s
    → Confirmed journey_ends now ss r s
unfolding judge span_of
judge-Confirmed untriaged_ts journey_ends now ss (last, stopped) s e =
    elim (Bool-cases (ltb (ss + tail_cap_s) last)) [
      | inl a ↦ absurd (none-ne-some s (rw a at e))
      | inr a ↦ elim (Bool-cases (any (λ t. leb ss (t + tail_gap_s) && ltb t ss) untriaged_ts)) [
        | inl b ↦ absurd (none-ne-some s (rw (a, b) at e))
        | inr b ↦ elim (Bool-cases (arrives journey_ends ss)) [
          | inr c ↦ absurd (none-ne-some s (rw (a, b, c) at e))
          | inl c ↦ elim (Bool-cases (not stopped && ltb now (last + tail_gap_s + tail_slack_s))) [
            | inl d ↦ absurd (none-ne-some s (rw (a, b, c, d) at e))
            | inr d ↦
                (sym (some-injective _ _ (rw (a, b, c, d) at e)), ground arith, c, waited stopped d)
          ]
        ]
      ]
    ]
  where
    waited :
        (b : Bool)
        → (not b && ltb now (last + tail_gap_s + tail_slack_s)) ≡ false
        → (b ≡ true) ⊎ (last + tail_gap_s + tail_slack_s ≤ now)
    waited true d = inl refl
    waited false d = inr (ground arith)
