-- ===== src/Tests/Drains.antt =====
-- The theorems on the download worker at a queue of two clips.
use mathlib.Core.List.{Memᴰ}
use viofosync.Prelude.{
  ℕ, ◌+◌, ◌<◌, ◌≡◌, ◌≢◌, refl, Bool, true, false, List, [], ◌∷◌, none, some, arith, count, length,
}
use viofosync.Prelude.Text.{Text, codes, text_eq, text_leb, has_infix, has_suffix, has_prefix}
use viofosync.FileName.{capture_key_sql}
use viofosync.Queue.Keys.{Unique, sum}
use viofosync.Queue.Row.{
  pending, Row, everything, ro_path, before, newest_capture, scope_sql, is_active, awaits_triage,
  is_newest,
}
use viofosync.Queue.Reconcile.{
  Recording, new_row, reconcile, remote_by_name, index_from, put, vanish_all, vanish_one, visit_all,
  visit, contains, visit_held, visit_wanted, is_stale, has_name, or_else, find, listed,
}
use viofosync.Queue.Table.{update, first_by}
use viofosync.Queue.Pick.{next_pending, is_eligible}
use viofosync.Queue.Ops.{mark_downloading, mark_done, mark_transient_failure}
use viofosync.Triage.{remove_skeleton}
use viofosync.Deletion.{Dashcam, response, url_error, refresh_queue_size, maybe_delete_from_dashcam}
use viofosync.Sync.{
  Worker, fetched, os_error, Meeting, answers, download_one, settle_download, blocking,
  after_transfer, relist_interval,
}
use viofosync.Sync.Outcomes.{id_of, Downloads}
use viofosync.Sync.Outcomes.Downloading.{download_one-Downloads}
use viofosync.Sync.Cycle.{
  Listing, unlisted, Lap, out_of_laps, drain_from, relist, refresh_listing, relist_due,
}
use viofosync.Sync.Ends.{work, is_cancelled_lap}
use viofosync.Sync.Removal.{after_transfer_camera}
use viofosync.Sync.Ends.Drains.{Quiet, drain_from-Ends}

abbrev relisted : Text → Recording
relisted name = record {
  filename = name;
  filepath = codes "A:/DCIM";
  size = some 100;
  recorded = some 500;
}

abbrev silent : Dashcam Bool
silent = record { get = λ c url. (url_error, c) }

abbrev waiting_clip : ℕ → Text → Row
unfolding new_row
waiting_clip id name =
    new_row pending none 10 id name
      (record { filename = name; filepath = codes "A:/DCIM"; size = some 100; recorded = some 500 })

abbrev first_row : Row
unfolding waiting_clip
first_row = waiting_clip 1 (codes "2026_0628_133416_0001F.MP4")

abbrev second_row : Row
unfolding waiting_clip
second_row = record (waiting_clip 2 (codes "2026_0628_133516_0002F.MP4")) { attempts = 2 }

abbrev worker : Worker Bool
worker = record {
  queue = first_row ∷ second_row ∷ [];
  jobs = [];
  skeletons = [];
  camera = true;
  last_error_kind = none;
  last_relist_done = none;
  last_relist_cost_s = 0;
}

worker-Unique : Unique id_of worker.queue
unfolding first_row second_row waiting_clip new_row
worker-Unique = ((refl, tt), (tt, tt))

abbrev failing : Meeting
failing = record {
  now = 90;
  fetch = os_error false (codes "timed out");
  file = none;
  clip_id = none;
}

download_one-Downloads_example :
    let (returns, s') = download_one silent (codes "http://1") true 3 second_row failing worker in
    (returns ≡ answers false)
    × Downloads 3 (os_error false (codes "timed out")) second_row worker.queue s'.queue
download_one-Downloads_example =
    download_one-Downloads silent (codes "http://1") true 3 second_row failing worker worker-Unique
      (Memᴰ.tail (Memᴰ.head refl))

abbrev failing_lap : Lap
failing_lap = record {
  stop = false;
  paused = false;
  scope = everything;
  triage_gate = false;
  reachable = true;
  meeting = failing;
  clock = 100;
  listing = unlisted;
  cost_s = 40;
}

-- A download that succeeds, after which the listing holds the two clips again.
abbrev quiet_lap : Lap
quiet_lap = record failing_lap {
  meeting = record failing { fetch = fetched true; file = some 100 };
  listing =
      Listing.listed
        (relisted (codes "2026_0628_133416_0001F.MP4")
          ∷ relisted (codes "2026_0628_133516_0002F.MP4")
          ∷ [])
        (codes "2026_0628_133416_0001F.MP4" ∷ []);
}

abbrev laps_ahead : List Lap
laps_ahead = quiet_lap ∷ failing_lap ∷ failing_lap ∷ failing_lap ∷ failing_lap ∷ []

few_tries : work 3 worker.queue + count is_cancelled_lap laps_ahead < length laps_ahead
unfolding work sum first_row second_row waiting_clip new_row
few_tries = omega arith

laps_ahead-Quiet : Quiet silent (codes "http://1") true 3 false laps_ahead worker
unfolding Quiet next_pending is_eligible before first_by download_one settle_download blocking
    after_transfer relist refresh_listing relist_due relist_interval reconcile work sum first_row
    second_row waiting_clip new_row remote_by_name index_from put text_eq vanish_all vanish_one
    visit_all visit contains visit_held visit_wanted is_stale has_name or_else find listed update
    mark_downloading mark_done mark_transient_failure refresh_queue_size remove_skeleton
    maybe_delete_from_dashcam scope_sql is_active awaits_triage is_newest newest_capture
    capture_key_sql text_leb
laps_ahead-Quiet = (omega arith, tt)

drain_from-Ends_example :
    (drain_from silent (codes "http://1") true 3 false laps_ahead worker).0 ≢ out_of_laps
drain_from-Ends_example =
    drain_from-Ends silent (codes "http://1") true 3 laps_ahead false worker worker-Unique
      laps_ahead-Quiet few_tries

-- A camera that counts its requests.
abbrev counting : Dashcam ℕ
counting = record { get = λ c url. (response 200, c + 1) }

abbrev counted : Worker ℕ
counted = record {
  queue = first_row ∷ [];
  jobs = [];
  skeletons = [];
  camera = 7;
  last_error_kind = none;
  last_relist_done = none;
  last_relist_cost_s = 0;
}

after_transfer_camera_example :
    (after_transfer counting (codes "http://1") true 3 first_row (some 100) counted).camera ≡ 8
unfolding ro_path has_infix has_suffix has_prefix waiting_clip first_row new_row
after_transfer_camera_example =
    after_transfer_camera counting (codes "http://1") true 3 first_row (some 100) counted
