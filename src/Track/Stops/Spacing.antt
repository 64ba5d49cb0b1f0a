-- ===== src/Track/Stops/Spacing.antt =====
-- web/services/gps.py: the stops of detect_stops are long enough, in order and apart.
use mathlib.Core.Path.{subst}
use viofosync.Prelude.{
  ℕ, ◌+◌, ◌≤◌, ◌≡◌, refl, sym, true, false, none, some, ◌⊎◌, List, [], ◌∷◌, ◌++◌, arith, ltb, leb,
  leb→le, if◌then◌else◌, length, inl, inr, Bool-cases,
}
use viofosync.Track.{Point, Climbs, min_stop_duration_s, min_departure_duration_s}
use viofosync.Track.Stops.{
  Phase, moving, stationary, Stop, Detector, no_stops, stop_from, emit, restart_candidate,
  old_enough, confirm, depart, or_now, inside, join, step_moving, step_stationary, step_in, step,
  run_detector, finish_in, finish_detector, detect_stops,
}

-- Stops from one time to another: each lasts for MIN_STOP_DURATION_S, and starts no earlier than
-- the one before ends.
abbrev pub Spaced : ℕ → List Stop → ℕ → Type 0
Spaced lo [] hi = lo ≤ hi
Spaced lo (s ∷ ss) hi =
    (lo ≤ s.start_time)
    × (s.start_time + min_stop_duration_s ≤ s.end_time)
    × Spaced s.end_time ss hi

pub Spaced-mono :
    (lo : ℕ) (ss : List Stop) (hi hi' : ℕ) → Spaced lo ss hi → hi ≤ hi' → Spaced lo ss hi'
Spaced-mono lo [] hi hi' h le = omega arith
Spaced-mono lo (s ∷ ss) hi hi' (a, b, h) le = (a, b, Spaced-mono s.end_time ss hi hi' h le)

pub Spaced-le : (lo : ℕ) (ss : List Stop) (hi : ℕ) → Spaced lo ss hi → lo ≤ hi
Spaced-le lo [] hi h = h
Spaced-le lo (s ∷ ss) hi (a, b, h) = omega (arith, a, b, Spaced-le s.end_time ss hi h)

Spaced-snoc :
    (lo : ℕ) (ss : List Stop) (s : Stop)
    → Spaced lo ss s.start_time
    → s.start_time + min_stop_duration_s ≤ s.end_time
    → Spaced lo (ss ++ (s ∷ [])) s.end_time
Spaced-snoc lo [] s h long = (h, long, omega arith)
Spaced-snoc lo (r ∷ ss) s (a, b, h) long = (a, b, Spaced-snoc r.end_time ss s h long)

-- What holds between two points, the last of them at the time `now`: the emitted stops are spaced
-- up to the candidate, or to the confirmed stop, which has lasted long enough.
abbrev Tracks : Phase → ℕ → Detector → ℕ → Type 0
Tracks moving lo d now =
    (c : ℕ) × ((d.candidate_start_t ≡ some c) ⊎ (d.anchor ≡ none)) × Spaced lo d.stops c × (c ≤ now)
Tracks stationary lo d now =
    (a b : ℕ) × (d.confirmed_start_t ≡ some a)
    × (d.confirmed_end_t ≡ some b)
    × (a + min_stop_duration_s ≤ b)
    × (b ≤ now)
    × Spaced lo d.stops a

abbrev Holds : ℕ → Detector → ℕ → Type 0
Holds lo d now = Tracks d.state lo d now

emit-Spaced :
    (lo a b : ℕ) (d : Detector)
    → d.confirmed_start_t ≡ some a
    → d.confirmed_end_t ≡ some b
    → a + min_stop_duration_s ≤ b
    → Spaced lo d.stops a
    → Spaced lo (emit d).stops b
unfolding emit
emit-Spaced lo a b d ea eb long h =
    rw (ea, eb) (Spaced-snoc lo d.stops (stop_from a b d.candidate_points) h long)

in_phase :
    (phase : Phase) (lo : ℕ) (d : Detector) (now : ℕ)
    → d.state ≡ phase
    → Tracks phase lo d now
    → Holds lo d now
in_phase phase lo d now e h = subst (λ x. Tracks x lo d now) (sym e) h

module _ (metre : ℕ) (distance : Point → Point → ℕ) (lo : ℕ) (d : Detector) (now : ℕ) (p : Point)
    (later : now ≤ p.t) where
  confirm-Holds :
      Tracks moving lo d now
      → d.state ≡ moving
      → inside metre distance d.anchor p ≡ true
      → Holds lo
          (if old_enough d.candidate_start_t p.t
            then confirm p.t (join metre distance p d)
            else join metre distance p d)
          p.t
  confirm-Holds (c, inr e, h, le) s close = absurd (let e' = rw e at close in cc)
  confirm-Holds (c, inl e, h, le) s close = elim (Bool-cases (leb (c + min_stop_duration_s) p.t)) [
    | inl old ↦
        let aged : old_enough d.candidate_start_t p.t ≡ true = rw e old in
        rw aged (c, p.t, e, refl, leb→le _ _ old, omega arith, h)
    | inr young ↦
        let fresh : old_enough d.candidate_start_t p.t ≡ false = rw e young in
        rw fresh (in_phase moving lo (join metre distance p d) p.t s (c, inl e, h, omega arith))
  ]

  step_moving-Holds :
      Tracks moving lo d now → d.state ≡ moving → Holds lo (step_moving metre distance p d) p.t
  unfolding step_moving
  step_moving-Holds t s = elim (Bool-cases (inside metre distance d.anchor p)) [
    | inl close ↦
        subst (λ x. Holds lo x p.t) (sym (rw (step_moving, close) refl)) (confirm-Holds t s close)
    | inr far ↦
        let (c, start, h, le) = t in
        subst (λ x. Holds lo x p.t) (sym (rw (step_moving, far) refl))
          (in_phase moving lo (restart_candidate p d) p.t s
            (p.t, inl refl, Spaced-mono lo d.stops c p.t h (omega arith), omega arith))
  ]

  leave-Holds :
      Tracks stationary lo d now
      → d.state ≡ stationary
      → (since : ℕ)
      → Holds lo
          (if leb (since + min_departure_duration_s) p.t
            then depart p d
            else record d { departure_start_t = some since })
          p.t
  leave-Holds (a, b, ea, eb, long, le, h) s since =
      elim (Bool-cases (leb (since + min_departure_duration_s) p.t)) [
        | inl gone ↦ rw gone (
          p.t,
          inl refl,
          Spaced-mono lo (emit d).stops b p.t (emit-Spaced lo a b d ea eb long h) (omega arith),
          omega arith,
        )
        | inr here ↦ rw here (
            in_phase stationary lo (record d { departure_start_t = some since }) p.t s
              (a, b, ea, eb, long, omega arith, h))
      ]

  step_stationary-Holds :
      Tracks stationary lo d now
      → d.state ≡ stationary
      → Holds lo (step_stationary metre distance p d) p.t
  unfolding step_stationary
  step_stationary-Holds t s = elim (Bool-cases (inside metre distance d.anchor p)) [
    | inl close ↦
        let (a, b, ea, eb, long, le, h) = t in
        let after = record (join metre distance p d) {
          confirmed_end_t = some p.t;
          departure_start_t = none;
        } in
        subst (λ x. Holds lo x p.t) (sym (rw (step_stationary, close) refl))
          (in_phase stationary lo after p.t s (a, p.t, ea, refl, omega arith, omega arith, h))
    | inr far ↦
        subst (λ x. Holds lo x p.t) (sym (rw (step_stationary, far) refl))
          (leave-Holds t s (or_now d.departure_start_t p.t))
  ]

  step-Holds : Holds lo d now → Holds lo (step metre distance p d) p.t
  unfolding step
  step-Holds h = in_each d.state refl
    where
      in_each : (phase : Phase) → d.state ≡ phase → Holds lo (step_in metre distance phase p d) p.t
      in_each moving e = step_moving-Holds (subst (λ x. Tracks x lo d now) e h) e
      in_each stationary e = step_stationary-Holds (subst (λ x. Tracks x lo d now) e h) e

module _ (metre : ℕ) (distance : Point → Point → ℕ) where
  run_detector-Holds :
      (lo : ℕ) (ps : List Point) (d : Detector) (now hi : ℕ)
      → Holds lo d now
      → Climbs now ps hi
      → (last : ℕ) × Holds lo (run_detector metre distance ps d) last × (last ≤ hi)
  unfolding run_detector
  run_detector-Holds lo [] d now hi h c = (now, h, c)
  run_detector-Holds lo (p ∷ ps) d now hi h (le, c) =
      run_detector-Holds lo ps (step metre distance p d) p.t hi
        (step-Holds metre distance lo d now p le h) c

  finish_detector-Spaced :
      (lo : ℕ) (d : Detector) (now : ℕ) → Holds lo d now → Spaced lo (finish_detector d).stops now
  unfolding finish_detector
  finish_detector-Spaced lo d now h = in_each d.state refl
    where
      in_each : (phase : Phase) → d.state ≡ phase → Spaced lo (finish_in phase d).stops now
      in_each moving e =
          let (c, start, s, le) = subst (λ x. Tracks x lo d now) e h in
          Spaced-mono lo d.stops c now s le
      in_each stationary e =
          let (a, b, ea, eb, long, le, s) = subst (λ x. Tracks x lo d now) e h in
          Spaced-mono lo (emit d).stops b now (emit-Spaced lo a b d ea eb long s) le

  -- On points in the order of their times, from one time to another, whatever their distances, each
  -- stop that detect_stops returns lasts for at least 300 seconds, starts no earlier than the stop
  -- before it ends, and all lie between the two times.
  pub detect_stops-Spaced :
      (lo : ℕ) (points : List Point) (hi : ℕ)
      → Climbs lo points hi
      → lo ≤ hi
      → Spaced lo (detect_stops metre distance points) hi
  unfolding detect_stops
  detect_stops-Spaced lo points hi c le = elim (Bool-cases (ltb (length points) 2)) [
    | inl few ↦ rw (detect_stops, few) le
    | inr enough ↦
        let start : Holds lo no_stops lo = (lo, inr refl, omega arith, omega arith) in
        let (last, h, before) = run_detector-Holds lo points no_stops lo hi start c in
        subst (λ ss. Spaced lo ss hi) (sym (rw (detect_stops, enough) refl))
          (Spaced-mono lo _ last hi (finish_detector-Spaced lo _ last h) before)
  ]
