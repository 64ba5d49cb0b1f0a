-- ===== src/Track.antt =====
-- web/services/gps.py: the GPS fixes of a day, their sessions, and the fixes that are dropped as
-- outliers. Times are whole seconds. A position stays the bits of its floats, as speed and bearing do, and the distance of
-- two positions, a computation on floats, is an argument, counted in units of which a metre holds a
-- fixed number.
pub mod Stops
pub mod Journeys
pub mod Sessions
pub mod Outliers
pub mod Windows
use viofosync.Prelude.{
  ℕ, zero, suc, ◌+◌, ◌-◌, ◌*◌, ◌≤◌, ◌≡◌, Bool, true, false, ◌&&◌, ◌||◌, not, Option, none, some,
  List, [], ◌∷◌, ◌++◌, arith, ltb, leb, ◌==◌, if◌then◌else◌, length, take, drop, min, max,
}

-- MIN_STOP_DURATION_S, MIN_DEPARTURE_DURATION_S, SESSION_GAP_SECONDS.
abbrev pub min_stop_duration_s : ℕ
min_stop_duration_s = 300

abbrev pub min_departure_duration_s : ℕ
min_departure_duration_s = 60

abbrev pub session_gap_seconds : ℕ
session_gap_seconds = 1800

-- STOP_RADIUS_M, MIN_JOURNEY_DISTANCE_M.
abbrev pub stop_radius_m : ℕ
stop_radius_m = 50

abbrev pub min_journey_distance_m : ℕ
min_journey_distance_m = 200

pub record Point : Type 0 where
  pub t : ℕ
  pub lat : ℕ
  pub lon : ℕ
  pub speed : ℕ
  pub bearing : ℕ

-- The points from one time to another, each no earlier than the one before.
abbrev pub Climbs : ℕ → List Point → ℕ → Type 0
Climbs lo [] hi = lo ≤ hi
Climbs lo (p ∷ ps) hi = (lo ≤ p.t) × Climbs p.t ps hi

-- `merged.sort(key=lambda p: p.t)`, which keeps the order of points with the same time.
unfoldable pub insert : Point → List Point → List Point
insert p [] = p ∷ []
insert p (q ∷ ps) = if leb p.t q.t then p ∷ q ∷ ps else q ∷ insert p ps

unfoldable pub sort : List Point → List Point
unfolding insert
sort [] = []
sort (p ∷ ps) = insert p (sort ps)

-- The chunk that a list of chunks ends with takes the point.
unfoldable pub add_to_last : Point → List (List Point) → List (List Point)
add_to_last p [] = []
add_to_last p (chunk ∷ []) = (chunk ++ (p ∷ [])) ∷ []
add_to_last p (chunk ∷ next ∷ chunks) = chunk ∷ add_to_last p (next ∷ chunks)

-- The loop of `_split_on_time_gaps`, with the time of the last point that it has placed.
unfoldable pub split_from :
    (max_gap_s last : ℕ) → List (List Point) → List Point → List (List Point)
unfolding add_to_last
split_from max_gap_s last chunks [] = chunks
split_from max_gap_s last chunks (p ∷ ps) =
    split_from max_gap_s p.t
      (if ltb (last + max_gap_s) p.t then chunks ++ ((p ∷ []) ∷ []) else add_to_last p chunks) ps

unfoldable pub split_on_time_gaps : ℕ → List Point → List (List Point)
unfolding split_from
split_on_time_gaps max_gap_s [] = []
split_on_time_gaps max_gap_s (p ∷ ps) = split_from max_gap_s p.t ((p ∷ []) ∷ []) ps

-- The window of a fix: as many neighbours as `half` on both sides, moved inward at the ends.
unfoldable pub center_of : (half n idx : ℕ) → ℕ
center_of half n idx = min (max idx half) (n - 1 - half)

unfoldable pub window : (half : ℕ) → List Point → (idx : ℕ) → List Point
unfolding center_of
window half points idx =
    take (half + half + 1) (drop (center_of half (length points) idx - half) points)

abbrev pub half_of : ℕ → ℕ
half_of n = if leb 5 n then 2 else 1

-- `far curr window`: the fix is more than OUTLIER_RETURN_RADIUS_M from the median of its window.
module _ (far : Point → List Point → Bool) where
  unfoldable pub keep_near : (half : ℕ) → List Point → (idx : ℕ) → List Point → List Point
  unfolding window
  keep_near half points idx [] = []
  keep_near half points idx (curr ∷ rest) =
      let kept = keep_near half points (suc idx) rest in
      if far curr (window half points idx) then kept else curr ∷ kept

  unfoldable pub filter_outliers : List Point → List Point
  unfolding keep_near
  filter_outliers points =
      if ltb (length points) 3 then points else keep_near (half_of (length points)) points 0 points
