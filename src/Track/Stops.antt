-- ===== src/Track/Stops.antt =====
-- web/services/gps.py: the state machine that finds the stops of a session.
pub mod Spacing
use viofosync.Prelude.{
  ℕ, zero, suc, ◌+◌, ◌-◌, ◌*◌, ◌≤◌, ◌≡◌, Bool, true, false, ◌&&◌, ◌||◌, not, Option, none, some,
  List, [], ◌∷◌, ◌++◌, arith, ltb, leb, ◌==◌, if◌then◌else◌, length, max,
}
use viofosync.Track.{Point, min_stop_duration_s, min_departure_duration_s, stop_radius_m}

pub data Phase : Type 0 where
  moving stationary : Phase

-- A stop; its centre is the mean of the points that it lists.
pub record Stop : Type 0 where
  pub start_time : ℕ
  pub end_time : ℕ
  pub center_of_points : List Point
  pub point_count : ℕ

-- The local variables of `detect_stops`.
pub record Detector : Type 0 where
  pub state : Phase
  pub anchor : Option Point
  pub candidate_start_t : Option ℕ
  pub candidate_points : List Point
  pub confirmed_start_t : Option ℕ
  pub confirmed_end_t : Option ℕ
  pub departure_start_t : Option ℕ
  pub stops : List Stop

abbrev pub no_stops : Detector
no_stops = record {
  state = moving;
  anchor = none;
  candidate_start_t = none;
  candidate_points = [];
  confirmed_start_t = none;
  confirmed_end_t = none;
  departure_start_t = none;
  stops = [];
}

-- `len(candidate_points) or 1`
abbrev pub stop_from : ℕ → ℕ → List Point → Stop
stop_from start end points = record {
  start_time = start;
  end_time = end;
  center_of_points = points;
  point_count = max (length points) 1;
}

abbrev pub emit_between : Option ℕ → Option ℕ → Detector → Detector
emit_between none end d = d
emit_between (some start) none d = d
emit_between (some start) (some end) d = record d {
  stops = d.stops ++ (stop_from start end d.candidate_points ∷ []);
}

-- `_emit`
unfoldable pub emit : Detector → Detector
emit d = emit_between d.confirmed_start_t d.confirmed_end_t d

-- The candidate starts again around the point.
abbrev pub restart_candidate : Point → Detector → Detector
restart_candidate p d = record d {
  anchor = some p;
  candidate_start_t = some p.t;
  candidate_points = p ∷ [];
}

abbrev pub old_enough : Option ℕ → ℕ → Bool
old_enough none now = false
old_enough (some start) now = leb (start + min_stop_duration_s) now

abbrev pub confirm : ℕ → Detector → Detector
confirm now d = record d {
  state = stationary;
  confirmed_start_t = d.candidate_start_t;
  confirmed_end_t = some now;
  departure_start_t = none;
}

-- The end of a stop: it is emitted, and the next candidate begins.
abbrev pub depart : Point → Detector → Detector
depart p d = record (restart_candidate p (emit d)) {
  state = moving;
  confirmed_start_t = none;
  confirmed_end_t = none;
  departure_start_t = none;
}

abbrev pub or_now : Option ℕ → ℕ → ℕ
or_now none now = now
or_now (some since) now = since

abbrev pub finish_in : Phase → Detector → Detector
finish_in moving d = d
finish_in stationary d = emit d

unfoldable pub finish_detector : Detector → Detector
finish_detector d = finish_in d.state d

module _ (metre : ℕ) (distance : Point → Point → ℕ) where
  abbrev pub is_close : Point → Point → Bool
  is_close a p = leb (distance a p) (stop_radius_m * metre)

  abbrev pub inside : Option Point → Point → Bool
  inside none p = false
  inside (some a) p = is_close a p

  abbrev pub join : Point → Detector → Detector
  join p d = record d { candidate_points = d.candidate_points ++ (p ∷ []) }

  unfoldable pub step_moving : Point → Detector → Detector
  step_moving p d =
      if inside d.anchor p
      then (if old_enough d.candidate_start_t p.t then confirm p.t (join p d) else join p d)
      else restart_candidate p d

  -- In this phase there is an anchor.
  unfoldable pub step_stationary : Point → Detector → Detector
  unfolding emit
  step_stationary p d =
      if inside d.anchor p
      then record (join p d) { confirmed_end_t = some p.t; departure_start_t = none }
      else let since = or_now d.departure_start_t p.t in
        if leb (since + min_departure_duration_s) p.t
        then depart p d
        else record d { departure_start_t = some since }

  abbrev pub step_in : Phase → Point → Detector → Detector
  step_in moving p d = step_moving p d
  step_in stationary p d = step_stationary p d

  unfoldable pub step : Point → Detector → Detector
  step p d = step_in d.state p d

  unfoldable pub run_detector : List Point → Detector → Detector
  unfolding step
  run_detector [] d = d
  run_detector (p ∷ ps) d = run_detector ps (step p d)

  unfoldable pub detect_stops : List Point → List Stop
  unfolding run_detector finish_detector
  detect_stops points =
      if ltb (length points) 2 then [] else (finish_detector (run_detector points no_stops)).stops
