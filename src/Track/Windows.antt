-- ===== src/Track/Windows.antt =====
-- web/services/gps.py: the padded windows of a day's journeys never overlap, as the comment on
-- SESSION_GAP_SECONDS says.
use mathlib.Core.Path.{subst}
use native.Mathlib.Nat.{le_trans}
use viofosync.Prelude.{
  ℕ, suc, ◌+◌, ◌-◌, ◌≤◌, ◌≡◌, refl, Bool, List, [], ◌∷◌, arith, ltb, if◌then◌else◌, min, max, map,
  inl, inr, Bool-cases,
}
use viofosync.Geofence.{max_journey_buffer_s, expand_edges, expand_journey_window}
use viofosync.Track.{
  Point, Climbs, min_stop_duration_s, session_gap_seconds, sort, filter_outliers,
  split_on_time_gaps,
}
use viofosync.Track.Sessions.{Sessions, Climbs-le, last_t, split-Sessions}
use viofosync.Track.Outliers.{sort-Climbs, filter_outliers-Climbs}
use viofosync.Track.Stops.{detect_stops}
use viofosync.Track.Stops.Spacing.{Spaced, detect_stops-Spaced}
use viofosync.Track.Journeys.{
  Span, Journey, last_of, is_stationary_chunk, session_of, sessions_of, merge, aggregate_day,
}
use viofosync.Track.Journeys.Apart.{Apart, Apart-mono, Apart-append, build_journeys-Apart}

-- Windows in order, with more than no time between two.
abbrev pub Disjoint : ℕ → List Span → Type 0
Disjoint lo [] = Unit
Disjoint lo ((a, b) ∷ spans) = (lo ≤ a) × (a ≤ b) × Disjoint (suc b) spans

abbrev pub window_of : List Span → Journey → Span
window_of parking j = expand_journey_window (j.start_time, j.end_time) parking

lower_edge :
    (start ps pe lo : ℕ)
    → lo ≤ start
    → let lo' = if ltb ps start then max lo (min pe start) else lo in (lo ≤ lo') × (lo' ≤ start)
lower_edge start ps pe lo l = (ground arith, ground arith)

upper_edge :
    (end ps pe hi : ℕ)
    → end ≤ hi
    → let hi' = if ltb end pe then min hi (max ps end) else hi in (end ≤ hi') × (hi' ≤ hi)
upper_edge end ps pe hi h = (ground arith, ground arith)

expand_edges_lem :
    (start end : ℕ) (parking : List Span) (lo hi : ℕ)
    → lo ≤ start
    → end ≤ hi
    → let (a, b) = expand_edges (start, end) parking (lo, hi) in
      (lo ≤ a) × (a ≤ start) × (end ≤ b) × (b ≤ hi)
unfolding expand_edges
expand_edges_lem start end [] lo hi l h = (omega arith, l, h, omega arith)
expand_edges_lem start end ((ps, pe) ∷ parking) lo hi l h =
    let (l1, l2) = lower_edge start ps pe lo l in
    let (h1, h2) = upper_edge end ps pe hi h in
    let (a, b, c, d) = expand_edges_lem start end parking _ _ l2 h1 in
    (le_trans l1 a, b, c, le_trans d h2)

windows-Disjoint :
    (parking : List Span) (lo m : ℕ) (js : List Journey) (hi : ℕ)
    → Apart lo js hi
    → m ≤ lo - max_journey_buffer_s
    → Disjoint m (map (window_of parking) js)
unfolding expand_journey_window
windows-Disjoint parking lo m [] hi a le = tt
windows-Disjoint parking lo m (j ∷ js) hi (a, b, c, rest) le =
    let (p, q, r, s) =
      expand_edges_lem j.start_time j.end_time parking (j.start_time - max_journey_buffer_s)
        (j.end_time + max_journey_buffer_s) (omega arith) (omega arith) in
    let (lo', hi') = window_of parking j in
    (
      omega (arith, p, a, le),
      omega (arith, q, b, r),
      windows-Disjoint parking (j.end_time + min_stop_duration_s) (suc hi') js hi rest
          (omega (arith, s)),
    )

last_t-last_of : (p : Point) (ps : List Point) → last_t p.t ps ≡ (last_of p ps).t
last_t-last_of p [] = refl
last_t-last_of p (q ∷ ps) = last_t-last_of q ps

Sessions-le :
    (gap lo : ℕ) (chunks : List (List Point)) (hi : ℕ) → Sessions gap lo chunks hi → lo ≤ hi + gap
Sessions-le gap lo [] hi s = s
Sessions-le gap lo ([] ∷ chunks) hi s = absurd s
Sessions-le gap lo ((p ∷ ps) ∷ chunks) hi (a, c, s) = omega (
  arith,
  a,
  Climbs-le p.t ps (last_t p.t ps) c,
  Sessions-le gap (last_t p.t ps + gap) chunks hi s,
)

module _ (metre : ℕ) (distance : Point → Point → ℕ) where
  session_of-Apart :
      (p : Point) (ps : List Point)
      → Climbs p.t ps (last_t p.t ps)
      → Apart p.t (session_of metre distance (p ∷ ps)).1 (last_t p.t ps)
  unfolding session_of
  session_of-Apart p ps c = elim (Bool-cases (is_stationary_chunk metre distance (p ∷ ps))) [
    | inl whole ↦ rw whole tt
    | inr moved ↦
        let stops = detect_stops metre distance (p ∷ ps) in
        let spaced =
          detect_stops-Spaced metre distance p.t (p ∷ ps) (last_t p.t ps) (omega arith, c)
            (Climbs-le p.t ps (last_t p.t ps) c) in
        rw moved (
          build_journeys-Apart metre distance p ps stops (last_t p.t ps) c
            (subst (λ h. Spaced p.t stops h) (last_t-last_of p ps) spaced))
  ]

  sessions_of-Apart :
      (lo : ℕ) (chunks : List (List Point)) (hi : ℕ)
      → Sessions session_gap_seconds lo chunks hi
      → Apart lo (sessions_of metre distance chunks).1 hi
  unfolding sessions_of
  sessions_of-Apart lo [] hi s = tt
  sessions_of-Apart lo ([] ∷ chunks) hi s = absurd s
  sessions_of-Apart lo ((p ∷ ps) ∷ chunks) hi (a, c, s) =
      let z = last_t p.t ps in
      let le = Climbs-le p.t ps z c in
      Apart-append lo (session_of metre distance (p ∷ ps)).1 (sessions_of metre distance chunks).1 z
        (z + session_gap_seconds) hi
        (Apart-mono p.t lo _ z z a (omega arith) (session_of-Apart p ps c))
        (sessions_of-Apart (z + session_gap_seconds) chunks hi s) (omega arith)
        (omega (arith, a, le))
        (omega (arith, Sessions-le session_gap_seconds (z + session_gap_seconds) chunks hi s))

  -- Whatever the day's points, their distances and the spans of the parking clips, the windows that
  -- expand_journey_window makes of the day's journeys are in the order of the journeys, each holds
  -- no less than its end after its start, and none overlaps the next.
  pub aggregate_day-Disjoint :
      (far : Point → List Point → Bool) (tracks : List (List Point)) (parking : List Span)
      → Disjoint 0 (map (window_of parking) (aggregate_day metre distance far tracks).2)
  unfolding aggregate_day
  aggregate_day-Disjoint far tracks parking =
      let (hi, c) = sort-Climbs (merge tracks) in
      let points = filter_outliers far (sort (merge tracks)) in
      windows-Disjoint parking 0 0
        (sessions_of metre distance (split_on_time_gaps session_gap_seconds points)).1 hi
        (sessions_of-Apart 0 (split_on_time_gaps session_gap_seconds points) hi (
          split-Sessions session_gap_seconds points hi
            (filter_outliers-Climbs far (sort (merge tracks)) hi c)))
        (omega arith)
