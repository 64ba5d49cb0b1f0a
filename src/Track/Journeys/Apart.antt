-- ===== src/Track/Journeys/Apart.antt =====
-- web/services/gps.py: the journeys of a session are in order, and a stop apart.
use viofosync.Prelude.{
  ℕ, ◌+◌, ◌*◌, ◌≤◌, List, [], ◌∷◌, ◌++◌, arith, ltb, select, inl, inr, Bool-cases, ◌⊎◌,
}
use viofosync.Track.{Point, Climbs, min_stop_duration_s, min_journey_distance_m}
use viofosync.Track.Stops.{Stop}
use viofosync.Track.Stops.Spacing.{Spaced, Spaced-le}
use viofosync.Track.Journeys.{
  Span, Journey, last_of, last_stop, between, span_if, spans_of, in_span, way, journey_of,
  journeys_of, build_journeys,
}

-- Spans within two times; the next starts no earlier than a stop's duration after the one before.
abbrev pub SpansApart : ℕ → List Span → ℕ → Type 0
SpansApart lo [] hi = Unit
SpansApart lo ((a, b) ∷ spans) hi =
    (lo ≤ a) × (a ≤ b) × (b ≤ hi) × SpansApart (b + min_stop_duration_s) spans hi

abbrev pub Apart : ℕ → List Journey → ℕ → Type 0
Apart lo [] hi = Unit
Apart lo (j ∷ js) hi =
    (lo ≤ j.start_time)
    × (j.start_time ≤ j.end_time)
    × (j.end_time ≤ hi)
    × Apart (j.end_time + min_stop_duration_s) js hi

pub Apart-mono :
    (lo lo' : ℕ) (js : List Journey) (hi hi' : ℕ)
    → lo' ≤ lo
    → hi ≤ hi'
    → Apart lo js hi
    → Apart lo' js hi'
Apart-mono lo lo' [] hi hi' l h a = tt
Apart-mono lo lo' (j ∷ js) hi hi' l h (a, b, c, d) = (
  omega (arith, a),
  b,
  omega (arith, c),
  Apart-mono (j.end_time + min_stop_duration_s) (j.end_time + min_stop_duration_s) js hi hi'
      (omega arith) h d,
)

pub Apart-append :
    (lo : ℕ) (js ks : List Journey) (mid lo' hi : ℕ)
    → Apart lo js mid
    → Apart lo' ks hi
    → mid + min_stop_duration_s ≤ lo'
    → lo ≤ lo'
    → mid ≤ hi
    → Apart lo (js ++ ks) hi
Apart-append lo [] ks mid lo' hi a b m l h = Apart-mono lo' lo ks hi hi l (omega arith) b
Apart-append lo (j ∷ js) ks mid lo' hi (p, q, r, a) b m l h = (
  p,
  q,
  omega (arith, r),
  Apart-append (j.end_time + min_stop_duration_s) js ks mid lo' hi a b m (omega (arith, r)) h,
)

last-Climbs :
    (p : Point) (ps : List Point) (hi : ℕ)
    → Climbs p.t ps hi
    → (p.t ≤ (last_of p ps).t) × ((last_of p ps).t ≤ hi)
last-Climbs p [] hi c = (omega arith, c)
last-Climbs p (q ∷ ps) hi (a, c) = let (b, d) = last-Climbs q ps hi c in (omega (arith, b), d)

-- The points of a span, from its start to its end.
select-Climbs :
    (a b m lo : ℕ) (ps : List Point) (hi : ℕ)
    → Climbs lo ps hi
    → (m ≤ a) ⊎ (m ≤ lo)
    → m ≤ b
    → Climbs m (select (in_span (a, b)) ps) b
select-Climbs a b m lo [] hi c low le = le
select-Climbs a b m lo (p ∷ ps) hi (h, c) low le = elim (Bool-cases (in_span (a, b) p)) [
  | inl here ↦
      rw here
        (ground (arith, h), select-Climbs a b p.t p.t ps hi c (inr (omega arith)) (ground arith))
  | inr out ↦
      let low' : (m ≤ a) ⊎ (m ≤ p.t) = ground (arith, h) in
      rw out (select-Climbs a b m p.t ps hi c low' le)
]

module _ (metre : ℕ) (distance : Point → Point → ℕ) where
  journey_of-Apart :
      (a b : ℕ) (ps : List Point) → Climbs a ps b → Apart a (journey_of metre distance ps) b
  unfolding journey_of
  journey_of-Apart a b [] c = tt
  journey_of-Apart a b (p ∷ []) c = tt
  journey_of-Apart a b (p ∷ q ∷ ps) (h, (k, c)) =
      elim (Bool-cases (ltb (way metre distance p (q ∷ ps)) (min_journey_distance_m * metre))) [
        | inl short ↦ rw short tt
        | inr long ↦ let (l, r) = last-Climbs q ps b c in rw long (h, omega (arith, k, l), r, tt)
      ]

  journeys_of-Apart :
      (points : List Point) (from to lo : ℕ) (spans : List Span) (hi : ℕ)
      → Climbs from points to
      → SpansApart lo spans hi
      → Apart lo (journeys_of metre distance points spans) hi
  unfolding journeys_of
  journeys_of-Apart points from to lo [] hi c s = tt
  journeys_of-Apart points from to lo ((a, b) ∷ spans) hi c (h, k, l, s) =
      let here =
        journey_of-Apart a b (select (in_span (a, b)) points)
          (select-Climbs a b a from points to c (inl (omega arith)) k) in
      Apart-append lo (journey_of metre distance (select (in_span (a, b)) points)) _ b
        (b + min_stop_duration_s) hi (Apart-mono a lo _ b b h (omega arith) here)
        (journeys_of-Apart points from to (b + min_stop_duration_s) spans hi c s) (omega arith)
        (omega arith) l

between-Apart :
    (s : Stop) (ss : List Stop) (last lo : ℕ)
    → Spaced s.end_time ss last
    → lo ≤ s.end_time
    → SpansApart lo
        (between s ss
          ++ span_if (ltb (last_stop s ss).end_time last) ((last_stop s ss).end_time, last))
        last
between-Apart s [] last lo h le = elim (Bool-cases (ltb s.end_time last)) [
  | inl more ↦ rw more (le, h, omega arith, tt)
  | inr over ↦ rw over tt
]
between-Apart s (r ∷ ss) last lo (a, b, h) le = (
  le,
  a,
  omega (arith, b, Spaced-le r.end_time ss last h),
  between-Apart r ss last (r.start_time + min_stop_duration_s) h b,
)

spans_of-Apart :
    (first last : ℕ) (stops : List Stop)
    → Spaced first stops last
    → SpansApart first (spans_of first last stops) last
unfolding spans_of
spans_of-Apart first last [] h = (omega arith, h, omega arith, tt)
spans_of-Apart first last (s ∷ ss) (a, b, h) = elim (Bool-cases (ltb first s.start_time)) [
  | inl more ↦ rw more (
    omega arith,
    a,
    omega (arith, b, Spaced-le s.end_time ss last h),
    between-Apart s ss last (s.start_time + min_stop_duration_s) h b,
  )
  | inr over ↦ rw over (between-Apart s ss last first h (omega (arith, a, b)))
]

module _ (metre : ℕ) (distance : Point → Point → ℕ) where
  -- Whatever the distances, the journeys that build_journeys makes of a session and of stops that
  -- are spaced inside it lie inside the session, in order, and each begins at least a stop's
  -- duration after the one before has ended.
  pub build_journeys-Apart :
      (p : Point) (ps : List Point) (stops : List Stop) (hi : ℕ)
      → Climbs p.t ps hi
      → Spaced p.t stops (last_of p ps).t
      → Apart p.t (build_journeys metre distance (p ∷ ps) stops) hi
  unfolding build_journeys
  build_journeys-Apart p [] stops hi c s = tt
  build_journeys-Apart p (q ∷ ps) stops hi c s =
      let last = (last_of q ps).t in
      let (_, le) = last-Climbs p (q ∷ ps) hi c in
      Apart-mono p.t p.t (journeys_of metre distance (p ∷ q ∷ ps) (spans_of p.t last stops)) last hi
        (omega arith) le
        (journeys_of-Apart metre distance (p ∷ q ∷ ps) p.t hi p.t (spans_of p.t last stops) last
          (omega arith, c) (spans_of-Apart p.t last stops s))
