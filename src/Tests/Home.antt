-- ===== src/Tests/Home.antt =====
-- The theorems on the geofence at a day with one clip, recorded after the drive home.
use viofosync.Prelude.{◌≡◌, refl, true, false, ◌&&◌, [], ◌∷◌, none, some, leb, any}
use viofosync.Prelude.Text.{Text, codes, text_eq}
use viofosync.FileName.{normal, day_key_sql, capture_key_sql}
use viofosync.Queue.Table.{Rows}
use viofosync.Queue.Row.{pending, Row, Table}
use viofosync.Queue.Reconcile.{Recording, new_row}
use viofosync.Geofence.{
  Day, day_listing, on_day, by_time, times, is_parking, is_untriaged, classify, judge_run, judge,
  run_end, evaluate_day,
}
use viofosync.Geofence.Tails.{Shutdown, classify-Shutdown}
use viofosync.Geofence.Skips.{Skip, evaluate_day-Skip}

abbrev home_clip : Recording
home_clip = record {
  filename = codes "2026_0628_133416_0001F.MP4";
  filepath = codes "A:/DCIM/Movie";
  size = some 100;
  recorded = some 1000;
}

abbrev home_row : Row
unfolding new_row
home_row = record (new_row pending none 10 1 home_clip.filename home_clip) {
  event_type = some normal;
  triaged_at = some 1200;
}

abbrev queue : Table
queue = home_row ∷ []

abbrev date : Text
date = codes "2026-06-28"

-- The day's listing, computed.
listing : day_listing date queue ≡ (1000, home_row) ∷ []
unfolding day_listing on_day by_time day_key_sql capture_key_sql text_eq home_row new_row
listing = refl

classify-Shutdown_example :
    (any (λ u. leb 990 u && leb u 2190) (times is_parking (day_listing date queue)) ≡ false)
    × Shutdown (times (λ r. true) (day_listing date queue)) (985 ∷ []) 5000 990 (990, 1060)
unfolding classify judge_run judge run_end times is_untriaged home_row new_row
classify-Shutdown_example =
    classify-Shutdown date queue (985 ∷ []) 5000 990 (990, 1060) (rw listing refl)

abbrev day : Day
day = record {
  date = date;
  home = (990, 1900) ∷ [];
  journeys = (400, 985) ∷ [];
  parking_spans = [];
}

evaluate_day-Skip_example : Rows (Skip day 5000 queue) queue (evaluate_day day 5000 queue).0
evaluate_day-Skip_example = evaluate_day-Skip day 5000 queue
