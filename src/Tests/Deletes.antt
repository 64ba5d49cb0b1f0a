-- ===== src/Tests/Deletes.antt =====
-- The theorems on deletes at a camera that keeps the requests it got, and at a small archive.
use mathlib.Core.List.{Memᴰ}
use viofosync.Prelude.{ℕ, ◌-◌, ◌≡◌, refl, true, false, ◌||◌, List, [], ◌∷◌, none, some, any}
use viofosync.Prelude.Text.{Text, codes, text_eq, has_infix, has_suffix, has_prefix}
use viofosync.Queue.Table.{Rows}
use viofosync.Deletion.Requests.{delete_remote, ask, Changes, ask-Changes}
use viofosync.Queue.Row.{done, Row, Table, ro_path}
use viofosync.Queue.Reconcile.{Recording, new_row}
use viofosync.Retention.{Clip, Host, Store, removed, is_ro}
use viofosync.Retention.Evictions.{UniqueIds}
use viofosync.Deletion.{Dashcam, response, delete_url, is_kept, delete_from_camera}
use viofosync.Deletion.Remote.{Harmless, delete_from_camera_harmless}
use viofosync.Deletion.Local.{delete_clips}
use viofosync.Deletion.Pinned.{delete_clips_spares}

abbrev base : Text
base = codes "http://192.168.1.254"

-- The camera's state is the list of the URLs that it was asked for.
abbrev log : Dashcam (List Text)
log = record { get = λ urls url. (response 200, url ∷ urls) }

abbrev drive : Recording
drive = record {
  filename = codes "1F.MP4";
  filepath = codes "/Movie";
  size = some 100;
  recorded = none;
}

abbrev crash : Recording
crash = record {
  filename = codes "2F.MP4";
  filepath = codes "/Movie/RO";
  size = some 90;
  recorded = none;
}

abbrev drive_row : Row
unfolding new_row
drive_row = new_row done none 10 1 (codes "1F.MP4") drive

abbrev crash_row : Row
unfolding new_row
crash_row = record (new_row done none 10 2 (codes "2F.MP4") crash) { locked = true }

abbrev clips : Table
clips = drive_row ∷ crash_row ∷ []

abbrev crash_url : Text
unfolding delete_url
crash_url = delete_url base (codes "/Movie/RO") (codes "2F.MP4")

-- The camera was not asked to delete the RO clip.
abbrev Spared : List Text → Type 0
Spared urls = any (text_eq crash_url) urls ≡ false

clips-Harmless : Harmless log base Spared clips
unfolding is_kept ro_path has_infix has_suffix has_prefix text_eq delete_url drive_row crash_row
    crash_url new_row
clips-Harmless r (Memᴰ.head e) kept urls i = rw e i
clips-Harmless r (Memᴰ.tail (Memᴰ.head e)) kept urls i =
    absurd (let k : (true ≡ false) = rw e at kept in cc)
clips-Harmless r (Memᴰ.tail (Memᴰ.tail m)) kept urls i = elim m [ ]

delete_from_camera_harmless_example :
    Spared (delete_from_camera log base (codes "1F.MP4" ∷ codes "2F.MP4" ∷ []) clips []).2
delete_from_camera_harmless_example =
    delete_from_camera_harmless log base Spared (codes "1F.MP4" ∷ codes "2F.MP4" ∷ []) clips []
      clips-Harmless refl

abbrev folder : Host ℕ
folder = record {
  getsize = λ w p. some 10;
  remove = λ w p. (removed, w - 10);
  rmdir = λ w d. w;
  dirname = λ p. codes "day";
  thumb_path = λ i. codes "thumb";
  sprite_path = λ i. codes "sprite";
  meta_path = λ i. codes "meta";
  disk_usage = λ w. some (w, 100);
  scan_dir_bytes = λ w. w;
  monotonic = λ w. 0;
}

abbrev drive_clip : Clip
drive_clip = record {
  id = 1;
  path = codes "day/1F.MP4";
  basename = codes "1F.MP4";
  timestamp = 100;
  event_type = some (codes "normal");
  locked = false;
}

abbrev crash_clip : Clip
crash_clip = record drive_clip {
  id = 2;
  path = codes "day/2F.MP4";
  basename = codes "2F.MP4";
  event_type = some (codes "ro");
}

abbrev archive : Store ℕ
archive = record { world = 90; clips = drive_clip ∷ crash_clip ∷ []; jobs = []; cache = none }

archive-UniqueIds : UniqueIds archive.clips
archive-UniqueIds = ((refl, tt), (tt, tt))

delete_clips_spares_example :
    ((c : Clip)
      → Memᴰ c archive.clips
      → (c.locked || is_ro c) ≡ true
      → Memᴰ c
          (delete_clips folder (codes "1F.MP4" ∷ codes "2F.MP4" ∷ []) false archive clips).0.clips)
    × ((r : Row)
        → Memᴰ r clips
        → r.locked ≡ true
        → Memᴰ r (delete_clips folder (codes "1F.MP4" ∷ codes "2F.MP4" ∷ []) false archive clips).1)
delete_clips_spares_example =
    delete_clips_spares folder (codes "1F.MP4" ∷ codes "2F.MP4" ∷ []) archive clips
      archive-UniqueIds

abbrev both_names : List Text
both_names = codes "1F.MP4" ∷ codes "2F.MP4" ∷ []

ask-Changes_example :
    Rows
      (Changes clips (delete_remote both_names))
      clips
      (ask folder log base 40 (delete_remote both_names) archive [] clips)
ask-Changes_example = ask-Changes folder log base 40 (delete_remote both_names) archive [] clips
