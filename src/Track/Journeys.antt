-- ===== src/Track/Journeys.antt =====
-- web/services/gps.py: the journeys between the stops of a session, and a day's stops and journeys.
-- The argument is the points of the sidecars that exist, each list as its file gives it.
pub mod Apart
use viofosync.Prelude.{
  ℕ, zero, suc, ◌+◌, ◌-◌, ◌*◌, ◌≤◌, ◌≡◌, Bool, true, false, ◌&&◌, ◌||◌, not, Option, none, some,
  List, [], ◌∷◌, ◌++◌, arith, ltb, leb, ◌==◌, if◌then◌else◌, length, select, all,
}
use viofosync.Track.{
  Point, min_journey_distance_m, session_gap_seconds, sort, filter_outliers, split_on_time_gaps,
}
use viofosync.Track.Stops.{Stop, stop_from, is_close, detect_stops}

abbrev pub Span : Type 0
Span = ℕ × ℕ

pub record Journey : Type 0 where
  pub start_time : ℕ
  pub end_time : ℕ
  pub start_lat : ℕ
  pub start_lon : ℕ
  pub end_lat : ℕ
  pub end_lon : ℕ
  pub distance_m : ℕ
  pub points : List Point

-- The last of the points `p ∷ ps`.
abbrev pub last_of : Point → List Point → Point
last_of p [] = p
last_of p (q ∷ ps) = last_of q ps

abbrev pub last_stop : Stop → List Stop → Stop
last_stop s [] = s
last_stop s (r ∷ ss) = last_stop r ss

-- From the end of each stop to the start of the next.
abbrev pub between : Stop → List Stop → List Span
between s [] = []
between s (r ∷ ss) = (s.end_time, r.start_time) ∷ between r ss

abbrev pub span_if : Bool → Span → List Span
span_if true span = span ∷ []
span_if false span = []

unfoldable pub spans_of : (first last : ℕ) → List Stop → List Span
spans_of first last [] = (first, last) ∷ []
spans_of first last (s ∷ ss) =
    let z = last_stop s ss in
    span_if (ltb first s.start_time) (first, s.start_time)
    ++ (between s ss ++ span_if (ltb z.end_time last) (z.end_time, last))

abbrev pub in_span : Span → Point → Bool
in_span (start, end) p = leb start p.t && leb p.t end

-- The points of all sidecars.
abbrev pub merge : List (List Point) → List Point
merge [] = []
merge (track ∷ tracks) = track ++ merge tracks

module _ (metre : ℕ) (distance : Point → Point → ℕ) where
  -- The way from `p` along the points.
  unfoldable pub way : Point → List Point → ℕ
  way p [] = 0
  way p (q ∷ ps) = distance p q + way q ps

  -- The journey of the points of a span: none for fewer than two points or too short a way.
  unfoldable pub journey_of : List Point → List Journey
  unfolding way
  journey_of [] = []
  journey_of (p ∷ []) = []
  journey_of (p ∷ q ∷ ps) =
      let dist = way p (q ∷ ps) in
      let z = last_of q ps in
      if ltb dist (min_journey_distance_m * metre)
      then []
      else record {
        start_time = p.t;
        end_time = z.t;
        start_lat = p.lat;
        start_lon = p.lon;
        end_lat = z.lat;
        end_lon = z.lon;
        distance_m = dist;
        points = p ∷ q ∷ ps;
      }
        ∷ []

  unfoldable pub journeys_of : List Point → List Span → List Journey
  unfolding journey_of
  journeys_of points [] = []
  journeys_of points (span ∷ spans) =
      journey_of (select (in_span span) points) ++ journeys_of points spans

  unfoldable pub build_journeys : List Point → List Stop → List Journey
  unfolding spans_of journeys_of
  build_journeys [] stops = []
  build_journeys (p ∷ []) stops = []
  build_journeys (p ∷ q ∷ ps) stops =
      let z = last_of q ps in journeys_of (p ∷ q ∷ ps) (spans_of p.t z.t stops)

  unfoldable pub is_stationary_chunk : List Point → Bool
  is_stationary_chunk [] = true
  is_stationary_chunk (anchor ∷ ps) = all (is_close metre distance anchor) ps

  -- The stop that a session is as a whole.
  abbrev pub chunk_as_stop : List Point → List Stop
  chunk_as_stop [] = []
  chunk_as_stop (p ∷ ps) = stop_from p.t (last_of p ps).t (p ∷ ps) ∷ []

  -- One session's stops and journeys.
  unfoldable pub session_of : List Point → List Stop × List Journey
  unfolding is_stationary_chunk build_journeys detect_stops
  session_of session =
      if is_stationary_chunk session
      then (chunk_as_stop session, [])
      else let stops = detect_stops metre distance session in (stops, build_journeys session stops)

  unfoldable pub sessions_of : List (List Point) → List Stop × List Journey
  unfolding session_of
  sessions_of [] = ([], [])
  sessions_of (session ∷ sessions) =
      let (stops, journeys) = session_of session in
      let (all_stops, all_journeys) = sessions_of sessions in
      (stops ++ all_stops, journeys ++ all_journeys)

  unfoldable pub aggregate_day :
      (Point → List Point → Bool) → List (List Point) → List Point × List Stop × List Journey
  unfolding sort filter_outliers split_on_time_gaps sessions_of
  aggregate_day far tracks =
      let merged = filter_outliers far (sort (merge tracks)) in
      let (stops, journeys) = sessions_of (split_on_time_gaps session_gap_seconds merged) in
      (merged, stops, journeys)
