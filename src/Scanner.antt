-- ===== src/Scanner.antt =====
-- web/services/scanner.py, with `get_downloaded_recordings` of viofosync_lib/_archive.py: the index
-- of the clips on disk. What is in the group folders, the sizes of files and the time zone are
-- arguments.
pub mod Rescan
pub mod Index
use viofosync.Prelude.{
  ℕ, suc, ◌+◌, Bool, true, false, not, ◌&&◌, ◌||◌, List, [], ◌∷◌, ◌++◌, map, Option, none, some,
  if◌then◌else◌, is_some, length, select, any, ◌>>=◌,
}
use viofosync.Prelude.Text.{Text, codes, text_eq, upper, has_prefix, has_infix, has_suffix}
use viofosync.Camera.{gps_camera_letter}
use viofosync.FileName.{Match, parse}
use viofosync.Grouping.{
  DateTime, Grouping, number, checked_date, checked_datetime, day_text, get_group_name,
  get_filepath,
}
use viofosync.Queue.Table.{update}
use viofosync.Queue.Row.{Row, Table}
use viofosync.DeriveQueue.{Jobs, enqueue_missing}

pub record ClipMeta : Type 0 where
  pub path : Text
  pub basename : Text
  pub group_name : Text
  pub timestamp : ℕ
  pub camera : Text
  pub sequence : ℕ
  pub event_type : Text
  pub size_bytes : ℕ
  pub has_gpx : Bool

-- `os.path.isfile` and `getsize` by path, what the glob lists, and `datetime.timestamp`.
pub record Disk : Type 0 where
  pub file_size : Text → Option ℕ
  pub globbed : List Text
  pub timestamp : DateTime → ℕ

unfoldable pub event_type_for : Text → Text → Text
event_type_for camera_field source_dir =
    if has_infix (codes "/RO/") (map upper source_dir)
    then codes "ro"
    else if has_prefix (codes "P") (map upper camera_field)
    then codes "parking"
    else codes "normal"

-- `m.group("camera") or GPS_CAMERA_LETTER`
abbrev pub camera_field : Text → Text
camera_field [] = gps_camera_letter ∷ []
camera_field (c ∷ s) = c ∷ s

unfoldable pub meta_of : Disk → Text → Text → Match → DateTime → Text → ℕ → ClipMeta
unfolding event_type_for day_text number
meta_of disk filename source_dir m ts path size = record {
  path = path;
  basename = filename;
  group_name = day_text ts.date;
  timestamp = disk.timestamp ts;
  camera = map upper (camera_field m.camera);
  sequence = number m.sequence;
  event_type = event_type_for (camera_field m.camera) source_dir;
  size_bytes = size;
  has_gpx = is_some (disk.file_size (path ++ codes ".gpx"));
}

-- `_clip_meta_for`; the outer none is the ValueError of a name that is no date.
unfoldable pub clip_meta_for : Disk → Text → Grouping → Text → Text → Option (Option ClipMeta)
unfolding parse checked_datetime get_group_name get_filepath meta_of
clip_meta_for disk destination grouping filename source_dir = elim (parse filename) [
  | none ↦ some none
  | some m ↦ elim (checked_datetime m) [
    | none ↦ none
    | some ts ↦
        let path = get_filepath destination (get_group_name ts.date grouping) filename in
        elim (disk.file_size path) [
          | none ↦ some none
          | some size ↦ some (some (meta_of disk filename source_dir m ts path size))
        ]
  ]
]

-- A Python set, as a list.
abbrev pub add_name : Text → List Text → List Text
add_name name names = if any (text_eq name) names then names else name ∷ names

abbrev pub and_name : Text → Option Match → Option (List Text) → Option (List Text)
and_name name none rest = rest
and_name name (some m) rest = elim (checked_date m) [
  | none ↦ none
  | some d ↦ (rest >>= λ names. some (add_name name names))
]

-- `get_downloaded_recordings`, whose glob is `*.MP4`; the dates are not used here.
unfoldable pub recordings_of : List Text → Option (List Text)
unfolding parse checked_date
recordings_of [] = some []
recordings_of (name ∷ names) =
    let rest = recordings_of names in
    if has_suffix (codes ".MP4") name then and_name name (parse name) rest else rest

-- `source_dirs.get(filename, "")`
unfoldable pub source_dir_of : Table → Text → Text
source_dir_of [] filename = []
source_dir_of (r ∷ t) filename =
    if text_eq r.filename filename then r.source_dir else source_dir_of t filename

abbrev pub and_meta : Option (Option ClipMeta) → Option (List ClipMeta) → Option (List ClipMeta)
and_meta none rest = none
and_meta (some none) rest = rest
and_meta (some (some meta)) rest = rest >>= λ metas. some (meta ∷ metas)

unfoldable pub iter_names : Disk → Text → Grouping → Table → List Text → Option (List ClipMeta)
unfolding clip_meta_for source_dir_of
iter_names disk destination grouping queue [] = some []
iter_names disk destination grouping queue (name ∷ names) =
    and_meta (clip_meta_for disk destination grouping name (source_dir_of queue name))
      (iter_names disk destination grouping queue names)

-- `list(_iter_clips(…))`
unfoldable pub iter_clips : Disk → Text → Grouping → Table → Option (List ClipMeta)
unfolding recordings_of iter_names
iter_clips disk destination grouping queue =
    recordings_of disk.globbed >>= λ names. iter_names disk destination grouping queue names
