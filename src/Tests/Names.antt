-- ===== src/Tests/Names.antt =====
-- The theorems on recording names and camera codes at names of the README's models.
use viofosync.Prelude.{◌≡◌, refl, true, false, some}
use viofosync.Prelude.Text.{codes, is_digit, is_alpha, upper}
use viofosync.FileName.{
  Match, parse, known_letters, mem_char, suffix_letters, camera_letter_sql, camera_from_filename,
  event_type_sql, event_from_filename,
}
use viofosync.FileName.Layout.{IsName, parse-layout}
use viofosync.FileName.Agreement.{sql_agrees-layout}

-- 2026_0628_133416_0001PF.MP4
abbrev parked_front : Match
parked_front = record {
  year = codes "2026";
  month = codes "06";
  day = codes "28";
  hour = codes "13";
  minute = codes "34";
  second = codes "16";
  sequence = codes "0001";
  camera = codes "PF";
}

parked_front-IsName : IsName parked_front
unfolding is_digit is_alpha
parked_front-IsName = record {
  year_length = refl;
  month_length = refl;
  day_length = refl;
  hour_length = refl;
  minute_length = refl;
  second_length = refl;
  year_digits = (refl, (refl, (refl, (refl, tt))));
  month_digits = (refl, (refl, tt));
  day_digits = (refl, (refl, tt));
  hour_digits = (refl, (refl, tt));
  minute_digits = (refl, (refl, tt));
  second_digits = (refl, (refl, tt));
  sequence_digits = (refl, (refl, (refl, (refl, tt))));
  camera_letters = (refl, (refl, tt));
  marked = λ e. cc;
}

parse-layout_example : parse (codes "2026_0628_133416_0001PF.MP4") ≡ some parked_front
parse-layout_example = parse-layout true true parked_front parked_front-IsName

sql_agrees-layout_example :
    (camera_letter_sql (codes "20260628133416_0001PF.MP4")
      ≡ camera_from_filename (codes "20260628133416_0001PF.MP4"))
    × (some (event_type_sql (codes "20260628133416_0001PF.MP4"))
        ≡ event_from_filename (codes "20260628133416_0001PF.MP4"))
unfolding suffix_letters known_letters mem_char upper
sql_agrees-layout_example =
    sql_agrees-layout false false parked_front (codes "PF") parked_front-IsName
      (rw (parse-layout false false parked_front parked_front-IsName) refl)
