-- ===== src/Importer.antt =====
-- web/services/importer.py: clips that are imported from a folder. The file system is a map from
-- paths to contents; which of its operations fail, and what `make_room_for` does, are arguments.
pub mod Ingest
pub mod Safe
pub mod Origins
pub mod Folder
use viofosync.Prelude.{
  ℕ, suc, ◌+◌, Bool, true, false, not, ◌&&◌, ◌||◌, List, [], ◌∷◌, ◌++◌, map, Option, none, some,
  ltb, leb, ◌==◌, if◌then◌else◌, is_some, any,
}
use viofosync.Prelude.Text.{Text, codes, text_eq, upper, has_prefix, has_infix}
use viofosync.Camera.{gps_camera_letter}
use viofosync.FileName.{Match, parse, last_or}
use viofosync.Grouping.{
  DateTime, Date, Grouping, number, checked_datetime, get_group_name, get_filepath, join_path,
}
use viofosync.Queue.Table.{update}
use viofosync.Scanner.{camera_field}

pub data Status : Type 0 where
  imported already_present over_quota_older error : Status

pub record ScanItem : Type 0 where
  pub src_path : Text
  pub source_rel_path : Text
  pub basename : Text
  pub timestamp : ℕ
  pub camera : Text
  pub sequence : ℕ
  pub event_type : Text
  pub size_bytes : ℕ

-- `"/" + path.replace("\\", "/").strip("/").upper()`
abbrev to_slash : ℕ → ℕ
to_slash c = if c == 92 then b'/' else c

abbrev pub strip_left : Text → Text
strip_left [] = []
strip_left (c ∷ s) = if c == b'/' then strip_left s else c ∷ s

abbrev pub strip_right : Text → Text
strip_right [] = []
strip_right (c ∷ s) = elim (strip_right s) [
  | [] ↦ if c == b'/' then [] else c ∷ []
  | d ∷ t ↦ c ∷ d ∷ t
]

unfoldable pub is_ro_path : Text → Bool
is_ro_path path =
    has_infix (codes "/RO/") (b'/' ∷ map upper (strip_right (strip_left (map to_slash path))))

unfoldable pub classify_event_type : Text → Text → Text
unfolding is_ro_path
classify_event_type camera source_rel_path =
    if is_ro_path source_rel_path
    then codes "ro"
    else if has_prefix (codes "P") (map upper camera)
    then codes "parking"
    else codes "normal"

-- `scan_item_from_match`, where `stamp` is `datetime.timestamp`; none is the ValueError.
unfoldable pub scan_item_from_match :
    (DateTime → ℕ) → Match → Text → Text → ℕ → Text → Option ScanItem
unfolding checked_datetime classify_event_type number
scan_item_from_match stamp m name source_rel_path size src_path = elim (checked_datetime m) [
  | none ↦ none
  | some ts ↦ some (record {
    src_path = src_path;
    source_rel_path = source_rel_path;
    basename = name;
    timestamp = stamp ts;
    camera = map upper (camera_field m.camera);
    sequence = number m.sequence;
    event_type = classify_event_type (camera_field m.camera) source_rel_path;
    size_bytes = size;
  })
]

unfoldable pub origin_source_dir : ScanItem → Text
unfolding text_eq
origin_source_dir item =
    if text_eq item.event_type (codes "ro") then codes "/import/RO/" else codes "/import/"
