-- ===== src/Importer/Folder.antt =====
-- web/services/importer.py: the scan of a folder, the batch, and the recovery of the staging folder.
pub mod Newest
pub mod Recovery
use viofosync.Prelude.{
  ℕ, suc, ◌+◌, ◌-◌, Bool, true, false, not, ◌&&◌, ◌||◌, List, [], ◌∷◌, ◌++◌, map, Option, none,
  some, ltb, leb, ◌==◌, if◌then◌else◌, is_some, any, length, select,
}
use viofosync.Prelude.Text.{Text, codes, text_eq, has_suffix}
use viofosync.FileName.{Match, parse}
use viofosync.Grouping.{DateTime, join_path}
use viofosync.Importer.{
  Status, imported, already_present, over_quota_older, error, ScanItem, scan_item_from_match,
}
use viofosync.Importer.Ingest.{
  Files, write_file, Snap, dest_for, staging_of, has_complete_copy, Origin, Calls, Ingested,
  ingest_clip,
}

-- A file that `os.walk` meets; its size is none where `getsize` raises.
pub record Walked : Type 0 where
  pub name : Text
  pub full : Text
  pub rel : Text
  pub size : Option ℕ

pub data SkippedFor : Type 0 where
  not_recognised bad_timestamp : SkippedFor

pub record Manifest : Type 0 where
  pub items : List ScanItem
  pub skipped : List (Text × SkippedFor)
  pub total_bytes : ℕ

abbrev pub size_or_zero : Option ℕ → ℕ
size_or_zero none = 0
size_or_zero (some n) = n

abbrev pub skip_file : Text → SkippedFor → Manifest → Manifest
skip_file name reason man = record man { skipped = (name, reason) ∷ man.skipped }

-- The item keeps its place among those of its second.
abbrev pub insert_item : ScanItem → List ScanItem → List ScanItem
insert_item i [] = i ∷ []
insert_item i (j ∷ items) =
    if leb j.timestamp i.timestamp then i ∷ j ∷ items else j ∷ insert_item i items

abbrev pub take_file : ScanItem → ℕ → Manifest → Manifest
take_file item size man = record man {
  items = insert_item item man.items;
  total_bytes = size + man.total_bytes;
}

abbrev pub of_item : Walked → Manifest → Option ScanItem → Manifest
of_item w man none = skip_file w.name bad_timestamp man
of_item w man (some item) = take_file item (size_or_zero w.size) man

unfoldable pub of_name : (DateTime → ℕ) → Walked → Manifest → Option Match → Manifest
unfolding scan_item_from_match
of_name stamp w man none = skip_file w.name not_recognised man
of_name stamp w man (some m) =
    of_item w man (scan_item_from_match stamp m w.name w.rel (size_or_zero w.size) w.full)

-- `scan_source`, which sorts at its end; the files come in the order of the walk.
unfoldable pub scan_source : (DateTime → ℕ) → List Walked → Manifest
unfolding parse of_name
scan_source stamp [] = record { items = []; skipped = []; total_bytes = 0 }
scan_source stamp (w ∷ files) = of_name stamp w (scan_source stamp files) (parse w.name)

pub record ImportSummary : Type 0 where
  pub imported_n : ℕ
  pub already_n : ℕ
  pub over_n : ℕ
  pub errors_n : ℕ
  pub bytes_imported : ℕ

abbrev pub no_clips : ImportSummary
no_clips = record { imported_n = 0; already_n = 0; over_n = 0; errors_n = 0; bytes_imported = 0 }

abbrev pub count_status : ScanItem → Status → ImportSummary → ImportSummary
count_status item imported s = record s {
  imported_n = s.imported_n + 1;
  bytes_imported = s.bytes_imported + item.size_bytes;
}
count_status item already_present s = record s { already_n = s.already_n + 1 }
count_status item over_quota_older s = record s { over_n = s.over_n + 1 }
count_status item error s = record s { errors_n = s.errors_n + 1 }

module _ {A : Type 0} (size : A → ℕ) (now : ℕ) (snap : Snap) (outcome : ScanItem → Calls A) where
  abbrev pub go_on :
      (Files A → List Origin → ImportSummary → Option ImportSummary × Files A × List Origin)
      → ScanItem
      → ImportSummary
      → Ingested A
      → Option ImportSummary × Files A × List Origin
  go_on rest item s (none, f, t) = (none, f, t)
  go_on rest item s (some status, f, t) = rest f t (count_status item status s)

  -- The loop of `run_folder_ingest`; the summary is none when an exception ended it.
  unfoldable pub ingest_all :
      (cross_volume : Bool)
      → List ScanItem
      → Files A
      → List Origin
      → ImportSummary
      → Option ImportSummary × Files A × List Origin
  unfolding ingest_clip
  ingest_all cross [] f t s = (some s, f, t)
  ingest_all cross (item ∷ items) f t s =
      go_on (ingest_all cross items) item s
        (ingest_clip size now snap (outcome item) item cross false f t)

  -- The end of a recovery, where `removes` says if the staged file could be removed.
  abbrev pub recovered : Bool → ScanItem → Ingested A → Ingested A
  recovered true item (some already_present, f, t) =
      (some already_present, write_file item.src_path none f, t)
  recovered removes item r = r

  unfoldable pub recover_item : ScanItem → Files A → List Origin → Ingested A
  unfolding ingest_clip
  recover_item item f t =
      recovered (outcome item).removes item
        (ingest_clip size now snap (outcome item) item false false f t)

  abbrev pub of_staged : Option ScanItem → Files A → List Origin → Option (Ingested A)
  of_staged none f t = none
  of_staged (some item) f t = some (recover_item item f t)

  abbrev pub of_size :
      (DateTime → ℕ) → Text → Text → Match → Option A → Files A → List Origin → Option (Ingested A)
  unfolding scan_item_from_match
  of_size stamp name path m none f t = none
  of_size stamp name path m (some a) f t =
      of_staged (scan_item_from_match stamp m name name (size a) path) f t

  -- A name of the staging folder in `recover_staging`; none if the loop passes over it.
  unfoldable pub recover_staged :
      (DateTime → ℕ) → Text → Files A → List Origin → Option (Ingested A)
  unfolding parse of_size join_path
  recover_staged stamp name f t = elim (parse name) [
    | none ↦ none
    | some m ↦ let path = join_path (staging_of snap) name in of_size stamp name path m (f path) f t
  ]

-- `_tidy_staging`: which names it removes, by the age of a file in seconds, none where that is unknown.
unfoldable pub is_debris : Text → Option ℕ → Bool
unfolding parse
is_debris name age =
    if has_suffix (codes ".part") name
    then (elim age [ none ↦ false | some s ↦ ltb 3600 s ])
    else not (is_some (parse name))

unfoldable pub tidy_staging : (Text → Option ℕ) → List Text → List Text
unfolding is_debris
tidy_staging age names = select (λ name. not (is_debris name (age name))) names

-- `present_in_archive` for one name and its expected size.
unfoldable pub is_present :
    {A : Type 0} → (A → ℕ) → (DateTime → ℕ) → Snap → Files A → Text → ℕ → Bool
unfolding parse scan_item_from_match has_complete_copy dest_for
is_present size stamp snap f name expected = elim (parse name) [
  | none ↦ false
  | some m ↦ elim (scan_item_from_match stamp m name name expected []) [
    | none ↦ false
    | some item ↦ has_complete_copy size f (dest_for snap item) expected
  ]
]
