-- ===== src/Tests/Imports.antt =====
-- The theorems on the index and on imports at a folder of two clips.
use mathlib.Core.List.{Memᴰ}
use viofosync.Prelude.{
  All, any, ℕ, ◌+◌, ◌*◌, ◌≤◌, ◌≡◌, refl, true, false, List, [], ◌∷◌, ◌++◌, none, some, length,
  if◌then◌else◌,
}
use viofosync.Prelude.Text.{
  Text, codes, text_eq, has_suffix, has_prefix, has_infix, is_digit, is_alpha, upper,
}
use viofosync.FileName.{Match}
use viofosync.Grouping.{
  Date, DateTime, daily, is_valid_date, ordinal, weekday, week_start, join_path,
}
use viofosync.Grouping.Weeks.{week_start-Monday}
use viofosync.DeriveQueue.{Jobs}
use viofosync.DeriveQueue.Scan.{live}
use viofosync.Scanner.{ClipMeta, Disk, iter_clips, camera_field, event_type_for, meta_of}
use viofosync.Scanner.Index.{Entry, ClipIndex, scan}
use viofosync.Scanner.Rescan.Flush.{Rescanned}
use viofosync.Scanner.Rescan.Flush.{scan-Rescanned}
use viofosync.Importer.{ScanItem, scan_item_from_match}
use viofosync.Importer.Ingest.{
  has_filename, record_origin, Files, Snap, copies, Calls, dest_for, ingest_clip,
}
use viofosync.Importer.Safe.{Found, ingest_clip-Found}
use viofosync.Importer.Origins.{record_origin-event_type_for}
use viofosync.Importer.Folder.{Walked, scan_source, recover_item}
use viofosync.Importer.Folder.Newest.{IsNewestFirst, IsListed, IsFound, scan_source-IsNewestFirst}
use viofosync.Importer.Folder.Recovery.{IsRecovered, recover_item-IsRecovered}

abbrev wednesday : Date
wednesday = record { year = 2026; month = 7; day = 1 }

week_start-Monday_example :
    (is_valid_date (week_start wednesday) ≡ true)
    × (weekday (week_start wednesday) ≡ 0)
    × (ordinal (week_start wednesday) ≤ ordinal wednesday)
    × (ordinal wednesday ≤ ordinal (week_start wednesday) + 6)
unfolding is_valid_date
week_start-Monday_example = week_start-Monday wednesday refl

abbrev front_name : Text
front_name = codes "2026_0701_133416_0001F.MP4"

abbrev stamp : DateTime → ℕ
stamp ts = ts.hour * 3600 + ts.minute * 60 + ts.second

abbrev stick : Disk
stick = record { file_size = λ p. some 10; globbed = front_name ∷ []; timestamp = stamp }

abbrev old_entry : Entry
old_entry = record {
  id = 1;
  path = codes "r/2026-06-30/x.MP4";
  basename = codes "x.MP4";
  group_name = codes "2026-06-30";
  timestamp = 5;
  camera = codes "F";
  sequence = 1;
  event_type = codes "normal";
  size_bytes = 10;
  has_gpx = false;
  gps_examined = true;
  locked = true;
  duration_s = some 60;
  scanned_at = 1;
}

abbrev found : ClipMeta
found = record {
  path = codes "r/2026-07-01/2026_0701_133416_0001F.MP4";
  basename = front_name;
  group_name = codes "2026-07-01";
  timestamp = 48856;
  camera = codes "F";
  sequence = 1;
  event_type = codes "normal";
  size_bytes = 10;
  has_gpx = true;
}

abbrev an_index : ClipIndex
an_index = record { rows = old_entry ∷ []; next_id = 2 }

scan-Rescanned_example :
    (r : ClipIndex × Jobs × ℕ) × (scan stick (codes "r") daily [] 9 (an_index, []) ≡ some r)
    × (r.2 ≡ 1)
    × Rescanned (found ∷ []) [] an_index.rows r.0.rows
    × ((e : Entry) → Memᴰ e r.0.rows → any (live e.id) r.1 ≡ true)
scan-Rescanned_example =
    scan-Rescanned stick (codes "r") daily [] 9 an_index [] (found ∷ [])
      (unfold iter_clips meta_of has_suffix is_digit is_alpha has_infix upper has_prefix in refl)

abbrev walked : Text → Walked
walked name = record { name = name; full = codes "s/" ++ name; rel = name; size = some 10 }

abbrev walked_files : List Walked
walked_files =
    walked front_name
    ∷ walked (codes "notes.txt")
    ∷ walked (codes "2026_0799_133416_0001F.MP4")
    ∷ []

scan_source-IsNewestFirst_example :
    let man = scan_source stamp walked_files in
    IsNewestFirst man.items
    × All (IsListed stamp man) walked_files
    × All (IsFound stamp walked_files) man.items
    × (length man.items + length man.skipped ≡ 3)
scan_source-IsNewestFirst_example = scan_source-IsNewestFirst stamp walked_files

abbrev locked_match : Match
locked_match = record {
  year = codes "2026";
  month = codes "07";
  day = codes "01";
  hour = codes "13";
  minute = codes "34";
  second = codes "16";
  sequence = codes "0001";
  camera = codes "PF";
}

abbrev item_at : Text → ScanItem
item_at src = record {
  src_path = src;
  source_rel_path = codes "RO/a.MP4";
  basename = codes "a.MP4";
  timestamp = 48856;
  camera = codes "PF";
  sequence = 1;
  event_type = codes "ro";
  size_bytes = 10;
}

record_origin-event_type_for_example :
    let item = item_at (codes "s/a.MP4") in
    (any (has_filename item.basename) (record_origin 90 item []) ≡ true)
    × All
        (λ r.
          has_filename item.basename r ≡ true
          → (event_type_for (camera_field locked_match.camera) r.source_dir ≡ r.event_type)
            × (r.event_type ≡ item.event_type))
        (record_origin 90 item [])
record_origin-event_type_for_example =
    record_origin-event_type_for stamp locked_match (codes "a.MP4") (codes "RO/a.MP4") 10
      (codes "s/a.MP4") (item_at (codes "s/a.MP4")) 90 []
      (unfold scan_item_from_match upper has_infix has_prefix in refl) refl

-- A content is its size.
abbrev full_disk : Calls ℕ
full_disk = record {
  room = λ f. (true, f);
  makes_staging = true;
  copy = copies;
  removes = true;
  moves = true;
  makes_folder = true;
  places = false;
  restores = true;
  extract_gps = λ f. f;
}

abbrev archive_of : Snap
archive_of = record { recordings = codes "r"; grouping = daily; from_timestamp = λ t. wednesday }

abbrev one_file : Text → Files ℕ
one_file p q = if text_eq q p then some 10 else none

ingest_clip-Found_example :
    Found
      (λ n. n)
      9
      archive_of
      full_disk
      (item_at (codes "s/a.MP4"))
      10
      true
      (ingest_clip
        (λ n. n)
        9
        archive_of
        full_disk
        (item_at (codes "s/a.MP4"))
        true
        false
        (one_file (codes "s/a.MP4"))
        [])
ingest_clip-Found_example =
    ingest_clip-Found (λ n. n) 9 archive_of full_disk (item_at (codes "s/a.MP4")) 10
      (unfold dest_for text_eq in refl) (λ f. (refl, refl)) (λ f. refl) true
      (one_file (codes "s/a.MP4")) [] (λ c. unfold join_path text_eq in refl)
      (unfold text_eq in refl)

recover_item-IsRecovered_example :
    IsRecovered
      (λ n. n)
      9
      archive_of
      (λ i. full_disk)
      (item_at (codes "r/.import_tmp/a.MP4"))
      10
      (recover_item
        (λ n. n)
        9
        archive_of
        (λ i. full_disk)
        (item_at (codes "r/.import_tmp/a.MP4"))
        (one_file (codes "r/.import_tmp/a.MP4"))
        [])
recover_item-IsRecovered_example =
    recover_item-IsRecovered (λ n. n) 9 archive_of (λ i. full_disk)
      (item_at (codes "r/.import_tmp/a.MP4")) 10 (one_file (codes "r/.import_tmp/a.MP4")) []
      (unfold join_path in refl) (unfold dest_for text_eq in refl) (λ f. (refl, refl)) (λ f. refl)
      (unfold text_eq in refl)
