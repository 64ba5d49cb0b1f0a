-- ===== src/Grouping.antt =====
-- viofosync_lib/_archive.py: the folder of a recording, with what it uses of `datetime` and `os.path`.
-- The time zone of the host is left to the users.
pub mod Weeks
use viofosync.Prelude.{
  ℕ, zero, suc, ◌+◌, ◌-◌, ◌*◌, ◌/◌, ◌%◌, Bool, true, false, not, ◌&&◌, ◌||◌, List, [], ◌∷◌, ◌++◌,
  Option, none, some, ltb, leb, ◌==◌, if◌then◌else◌,
}
use viofosync.Prelude.Text.{Text, codes}
use viofosync.FileName.{Match, last_or}

pub record Date : Type 0 where
  pub year : ℕ
  pub month : ℕ
  pub day : ℕ

pub record DateTime : Type 0 where
  pub date : Date
  pub hour : ℕ
  pub minute : ℕ
  pub second : ℕ

-- `int(…)` of decimal digits.
abbrev number_from : ℕ → Text → ℕ
number_from n [] = n
number_from n (c ∷ s) = number_from (n * 10 + (c - b'0')) s

unfoldable pub number : Text → ℕ
number s = number_from 0 s

unfoldable pub is_leap : ℕ → Bool
is_leap y = (y % 4 == 0) && not (y % 100 == 0) || (y % 400 == 0)

abbrev pub is_short_month : ℕ → Bool
is_short_month m = (m == 4) || (m == 6) || (m == 9) || (m == 11)

unfoldable pub days_in_month : ℕ → ℕ → ℕ
unfolding is_leap
days_in_month y m =
    if m == 2 then (if is_leap y then 29 else 28) else if is_short_month m then 30 else 31

unfoldable pub is_valid_date : Date → Bool
unfolding days_in_month
is_valid_date d =
    leb 1 d.year
    && leb 1 d.month
    && leb d.month 12
    && leb 1 d.day
    && leb d.day (days_in_month d.year d.month)

abbrev pub date_of : Match → Date
date_of m = record { year = number m.year; month = number m.month; day = number m.day }

-- `datetime.date(…)` and `datetime.datetime(…)` of a name; none is the ValueError.
unfoldable pub checked_date : Match → Option Date
unfolding number is_valid_date
checked_date m = if is_valid_date (date_of m) then some (date_of m) else none

unfoldable pub checked_datetime : Match → Option DateTime
unfolding number is_valid_date
checked_datetime m =
    if is_valid_date (date_of m)
      && ltb (number m.hour) 24
      && ltb (number m.minute) 60
      && ltb (number m.second) 60
    then some (record {
      date = date_of m;
      hour = number m.hour;
      minute = number m.minute;
      second = number m.second;
    })
    else none

-- `date.toordinal` and `date.weekday`, where Monday is 0.
unfoldable pub days_before_year : ℕ → ℕ
days_before_year y = (y - 1) * 365 + (y - 1) / 4 + (y - 1) / 400 - (y - 1) / 100

unfoldable pub days_before_month : ℕ → ℕ → ℕ
unfolding days_in_month
days_before_month y zero = 0
days_before_month y (suc zero) = 0
days_before_month y (suc (suc m)) = days_before_month y (suc m) + days_in_month y (suc m)

unfoldable pub ordinal : Date → ℕ
unfolding days_before_year days_before_month
ordinal d = days_before_year d.year + days_before_month d.year d.month + d.day

unfoldable pub weekday : Date → ℕ
unfolding ordinal
weekday d = (ordinal d + 6) % 7

-- `- timedelta(days=1)`, and as often as that is subtracted.
unfoldable pub previous_day : Date → Date
unfolding days_in_month
previous_day d =
    if ltb 1 d.day
    then record d { day = d.day - 1 }
    else if ltb 1 d.month
    then record d { month = d.month - 1; day = days_in_month d.year (d.month - 1) }
    else record { year = d.year - 1; month = 12; day = 31 }

unfoldable pub days_back : ℕ → Date → Date
unfolding previous_day
days_back zero d = d
days_back (suc n) d = days_back n (previous_day d)

unfoldable pub week_start : Date → Date
unfolding days_back weekday
week_start d = days_back (weekday d) d

-- `strftime`: the year has no leading zeros on Linux.
abbrev pub two_digits : ℕ → Text
two_digits n = (b'0' + n / 10) ∷ (b'0' + n % 10) ∷ []

unfoldable pub year_text : ℕ → Text
year_text y =
    if ltb y 10
    then (b'0' + y) ∷ []
    else if ltb y 100
    then two_digits y
    else if ltb y 1000
    then (b'0' + y / 100) ∷ two_digits (y % 100)
    else two_digits (y / 100) ++ two_digits (y % 100)

unfoldable pub month_text : Date → Text
unfolding year_text
month_text d = year_text d.year ++ b'-' ∷ two_digits d.month

unfoldable pub day_text : Date → Text
unfolding month_text
day_text d = month_text d ++ b'-' ∷ two_digits d.day

pub data Grouping : Type 0 where
  ungrouped daily weekly monthly yearly : Grouping

unfoldable pub get_group_name : Date → Grouping → Option Text
unfolding day_text month_text year_text week_start
get_group_name d ungrouped = none
get_group_name d daily = some (day_text d)
get_group_name d weekly = some (day_text (week_start d))
get_group_name d monthly = some (month_text d)
get_group_name d yearly = some (year_text d.year)

-- `os.path.join` of two parts, of which the second is not absolute.
unfoldable pub join_path : Text → Text → Text
join_path [] b = b
join_path (c ∷ a) b = if last_or c a == b'/' then (c ∷ a) ++ b else (c ∷ a) ++ b'/' ∷ b

-- `get_filepath`, where no group and an empty one are the same.
unfoldable pub get_filepath : Text → Option Text → Text → Text
unfolding join_path
get_filepath destination none filename = join_path destination filename
get_filepath destination (some []) filename = join_path destination filename
get_filepath destination (some (c ∷ group)) filename =
    join_path (join_path destination (c ∷ group)) filename
