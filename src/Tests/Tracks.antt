-- ===== src/Tests/Tracks.antt =====
-- The theorems on the bytes of recordings and on GPS tracks at small files and a short day.
use viofosync.Prelude.{
  ℕ, ◌-◌, ◌≡◌, refl, true, false, List, [], ◌∷◌, ◌++◌, none, some, arith, map, max, min,
}
use viofosync.Prelude.Text.{text_eq}
use viofosync.Gpx.{Bytes, has_final_moov}
use viofosync.Gpx.Final.{Atom, file_of, has_final_moov_lem}
use viofosync.Gpx.Payload.{is_marker, get_gps_data}
use viofosync.Gpx.Payload.Bounds.{IsLastMarker, IsFix, get_gps_data-IsFix}
use viofosync.Gpx.Walk.{parse_moov}
use viofosync.Gpx.Walk.Ends.{Ends, parse_moov-Ends}
use viofosync.Track.{Point, split_on_time_gaps}
use viofosync.Track.Sessions.{concat, IsSplit, split_on_time_gaps-IsSplit}
use viofosync.Track.Stops.{detect_stops}
use viofosync.Track.Stops.Spacing.{Spaced, detect_stops-Spaced}
use viofosync.Track.Journeys.{aggregate_day}
use viofosync.Track.Windows.{Disjoint, window_of, aggregate_day-Disjoint}

abbrev atom_of : Bytes → Atom
atom_of content = record {
  first = b'm';
  second = b'o';
  third = b'o';
  fourth = b'v';
  content = content;
}

abbrev two_atoms : List Atom
two_atoms =
    record (atom_of (1 ∷ 2 ∷ [])) { first = b'f'; second = b't'; third = b'y'; fourth = b'p' }
    ∷ atom_of (3 ∷ [])
    ∷ []

has_final_moov_lem_example : has_final_moov 3 (file_of two_atoms) 0 ≡ some true
unfolding text_eq
has_final_moov_lem_example =
    has_final_moov_lem 3 two_atoms
      (
        (omega arith, omega arith, omega arith, omega arith, omega arith),
        ((omega arith, omega arith, omega arith, omega arith, omega arith), tt),
      )
      (omega arith)

-- Time, date, ANE, latitude, longitude, speed, bearing.
abbrev payload : Bytes
payload =
    13 ∷ 0 ∷ 0 ∷ 0 ∷ 34 ∷ 0 ∷ 0 ∷ 0 ∷ 16 ∷ 0 ∷ 0 ∷ 0 ∷ 26 ∷ 0 ∷ 0 ∷ 0 ∷ 6 ∷ 0 ∷ 0 ∷ 0 ∷ 28 ∷ 0 ∷ 0
    ∷ 0 ∷ b'A' ∷ b'N' ∷ b'E' ∷ 0 ∷ 1 ∷ 2 ∷ 3 ∷ 4 ∷ 5 ∷ 6 ∷ 7 ∷ 8 ∷ 9 ∷ 10 ∷ 11 ∷ 12 ∷ 13 ∷ 14 ∷ 15
    ∷ 16 ∷ []

payload-IsLastMarker : IsLastMarker payload 24
unfolding is_marker
payload-IsLastMarker = (refl, omega arith, λ q more room. absurd (omega arith))

get_gps_data-IsFix_example : IsFix payload (get_gps_data payload)
get_gps_data-IsFix_example = get_gps_data-IsFix payload 24 payload-IsLastMarker (omega arith)

parse_moov-Ends_example : Ends (parse_moov 60 (file_of two_atoms))
parse_moov-Ends_example = parse_moov-Ends 60 (file_of two_atoms) (omega arith)

abbrev at : ℕ → ℕ → Point
at t place = record { t = t; lat = place; lon = 0; speed = 0; bearing = 0 }

-- Ten minutes at one place, a drive, and a second session.
abbrev morning : List Point
morning = at 1000 0 ∷ at 1300 10 ∷ at 1600 0 ∷ at 1630 400 ∷ at 1700 900 ∷ at 1800 1500 ∷ []

abbrev evening : List Point
evening = at 9000 1500 ∷ at 9060 800 ∷ []

abbrev straight : Point → Point → ℕ
straight a b = max a.lat b.lat - min a.lat b.lat

split_on_time_gaps-IsSplit_example :
    (concat (split_on_time_gaps 1800 (morning ++ evening)) ≡ morning ++ evening)
    × IsSplit 1800 none (split_on_time_gaps 1800 (morning ++ evening))
split_on_time_gaps-IsSplit_example = split_on_time_gaps-IsSplit 1800 (morning ++ evening)

detect_stops-Spaced_example : Spaced 1000 (detect_stops 1 straight morning) 1800
detect_stops-Spaced_example =
    detect_stops-Spaced 1 straight 1000 morning 1800
      (
        omega arith,
        (omega arith, (omega arith, (omega arith, (omega arith, (omega arith, omega arith))))),
      )
      (omega arith)

aggregate_day-Disjoint_example : Disjoint 0 (
    map
      (window_of ((500, 900) ∷ []))
      (aggregate_day 1 straight (λ _ _. false) (evening ∷ morning ∷ [])).2)
aggregate_day-Disjoint_example =
    aggregate_day-Disjoint 1 straight (λ _ _. false) (evening ∷ morning ∷ []) ((500, 900) ∷ [])
