-- ===== src/Geofence/Tails.antt =====
-- A confirmed shutdown tail of geofence.py, over the whole of a day's listing.
use mathlib.Core.List.{Memᴰ}
use mathlib.Core.Path.{subst}
use viofosync.Prelude.{
  ℕ, ◌+◌, ◌≤◌, ◌<◌, ◌≡◌, refl, sym, ap, Bool, true, false, ◌&&◌, List, [], ◌∷◌, some, arith, leb,
  select, any, All, Bool-cases, inl, inr, ◌⊎◌,
}
use viofosync.Prelude.Text.{Text}
use viofosync.Queue.Table.{mem_of_mem-select}
use viofosync.Queue.Row.{Table}
use viofosync.Geofence.{
  day_listing, is_parking, is_untriaged, times, run_end, tail_gap_s, tail_cap_s, tail_slack_s,
  leading_edge_pad_s, nominal_clip_s, Span, ordinary, tail, arrives, judge, judge_run, classify,
}
use viofosync.Geofence.Silence.{
  Sorted, Silent, span_of, day_listing-Sorted, all_times, run_end-Ended, judge-Confirmed,
}

Sorted-select : (p : ℕ → Bool) (ts : List ℕ) → Sorted ts → Sorted (select p ts)
Sorted-select p [] h = tt
Sorted-select p (t ∷ ts) (q, h) = elim (Bool-cases (p t)) [
  | inl e ↦ rw e (All_select p (λ u. t ≤ u) ts q, Sorted-select p ts h)
  | inr e ↦ rw e (Sorted-select p ts h)
]
  where
    All_select : (p : ℕ → Bool) (P : ℕ → Type 0) (xs : List ℕ) → All P xs → All P (select p xs)
    All_select p P [] h = tt
    All_select p P (x ∷ xs) (a, h) = elim (Bool-cases (p x)) [
      | inl e ↦ rw e (a, All_select p P xs h)
      | inr e ↦ rw e (All_select p P xs h)
    ]

All-select :
    (p : ℕ → Bool) (P : ℕ → Type 0) (xs : List ℕ)
    → ((x : ℕ) → p x ≡ false → P x)
    → All P (select p xs)
    → All P xs
All-select p P [] k h = tt
All-select p P (x ∷ xs) k h = elim (Bool-cases (p x)) [
  | inl e ↦ let h' : All P (x ∷ select p xs) = rw e at h in (h'.0, All-select p P xs k h'.1)
  | inr e ↦ let h' : All P (select p xs) = rw e at h in (k x e, All-select p P xs k h')
]

-- The silence that a tail rests on, among all the day's files `ts`.
abbrev pub Shutdown : List ℕ → List ℕ → ℕ → ℕ → Span → Type 0
Shutdown ts journey_ends now ss s =
    (last : ℕ) × (s ≡ (ss, last + nominal_clip_s))
    × (last ≤ ss + tail_cap_s)
    × (arrives journey_ends ss ≡ true)
    × All (Silent last) ts
    × (((u : ℕ) × Memᴰ u ts × (last + tail_gap_s < u)) ⊎ (last + tail_gap_s + tail_slack_s ≤ now))

judge_run-Shutdown :
    (untriaged_ts journey_ends ts run : List ℕ) (now ss : ℕ) (s : Span)
    → Sorted run
    → ((t : ℕ) → Memᴰ t run → ss ≤ t + leading_edge_pad_s)
    → ((u : ℕ) → Memᴰ u run → Memᴰ u ts)
    → ((last : ℕ) → ss ≤ last + leading_edge_pad_s → All (Silent last) run → All (Silent last) ts)
    → judge_run untriaged_ts journey_ends now ss run ≡ tail s
    → Shutdown ts journey_ends now ss s
unfolding judge_run
judge_run-Shutdown un je ts [] now ss s h near sub all e =
    absurd (let k : (span_of ordinary ≡ span_of (tail s)) = ap span_of e in unfold span_of in cc)
judge_run-Shutdown un je ts (t ∷ run) now ss s h near sub all e =
    let (more, silent, later) = run_end-Ended t run h in
    let k : (span_of (judge un je now ss (run_end t run)) ≡ some s) =
      (unfold span_of in ap span_of e) in
    let (same, cap, arrived, waited) = judge-Confirmed un je now ss (run_end t run) s k in
    let first = near t (Memᴰ.head refl) in
    (
      (run_end t run).0,
      same,
      cap,
      arrived,
      all (run_end t run).0 (omega (arith, first, more)) (inl more, silent),
      elim waited [
        | inl stopped ↦ let (u, m, far) = later stopped in inl (u, sub u (Memᴰ.tail m), far)
        | inr long ↦ inr long
      ],
    )

-- A stop is taken for a shutdown tail only when a journey arrives at it, no parking clip follows
-- within the cap and the gap, and the whole day's listing has a silence that begins within the cap:
-- no clip at all was recorded in it, and either a later clip proves it or the clock has passed it
-- by the slack.
pub classify-Shutdown :
    (date : Text) (t : Table) (journey_ends : List ℕ) (now ss : ℕ) (s : Span)
    → classify (day_listing date t) journey_ends now ss ≡ tail s
    → (any
          (λ u. leb ss u && leb u (ss + tail_cap_s + tail_gap_s))
          (times is_parking (day_listing date t))
        ≡ false)
      × Shutdown (times (λ r. true) (day_listing date t)) journey_ends now ss s
unfolding classify
classify-Shutdown date t je now ss s e =
    elim (Bool-cases (
      any (λ u. leb ss u && leb u (ss + tail_cap_s + tail_gap_s))
        (times is_parking (day_listing date t)))) [
          | inl parked ↦ absurd (
              let e' : (ordinary ≡ tail s) = rw parked at e in
              let k : (span_of ordinary ≡ span_of (tail s)) = ap span_of e' in unfold span_of in cc)
          | inr clear ↦ (
            clear,
            judge_run-Shutdown (times is_untriaged (day_listing date t)) je ts (select recent ts)
                now ss s (Sorted-select recent ts sorted)
                (λ u m. let (mu, q) = mem_of_mem-select recent ts m in ground arith)
                (λ u m. (mem_of_mem-select recent ts m).0)
                (λ last first silent.
                  All-select recent (Silent last) ts (λ u q. inl (ground arith)) silent)
                (rw clear at e),
          )
        ]
  where
    ts : List ℕ
    ts = times (λ r. true) (day_listing date t)

    recent : ℕ → Bool
    recent u = leb ss (u + leading_edge_pad_s)

    sorted : Sorted ts
    sorted = subst Sorted (sym (all_times (day_listing date t))) (day_listing-Sorted date t)
