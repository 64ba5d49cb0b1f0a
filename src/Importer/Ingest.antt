-- ===== src/Importer/Ingest.antt =====
-- web/services/importer.py: `ingest_clip`, with every outcome of the calls on the file system.
use viofosync.Prelude.{
  ℕ, Bool, true, false, ◌&&◌, List, [], ◌∷◌, ◌++◌, Option, none, some, leb, ◌==◌, if◌then◌else◌,
  is_some, any,
}
use viofosync.Prelude.Text.{Text, codes, text_eq}
use viofosync.Grouping.{Date, Grouping, get_group_name, get_filepath, join_path}
use viofosync.Queue.Row.{State, done}
use viofosync.Queue.Table.{update}
use viofosync.Importer.{
  Status, imported, already_present, over_quota_older, error, ScanItem, origin_source_dir,
}

-- What is at a path.
abbrev pub Files : Type 0 → Type 0
Files A = Text → Option A

abbrev pub write_file : {A : Type 0} → Text → Option A → Files A → Files A
write_file p a f q = if text_eq q p then a else f q

-- `os.replace`, where the source is there.
abbrev pub replace_file : {A : Type 0} → Text → Text → Files A → Files A
replace_file a b f q = if text_eq q b then f a else if text_eq q a then none else f q

-- The settings, and the time zone of the host.
pub record Snap : Type 0 where
  pub recordings : Text
  pub grouping : Grouping
  pub from_timestamp : ℕ → Date

unfoldable pub dest_for : Snap → ScanItem → Text
unfolding get_group_name get_filepath
dest_for snap item =
    get_filepath snap.recordings (get_group_name (snap.from_timestamp item.timestamp) snap.grouping)
      item.basename

abbrev pub staging_of : Snap → Text
staging_of snap = join_path snap.recordings (codes ".import_tmp")

-- `has_complete_copy`, where a size of 0 is an unknown one.
unfoldable pub has_complete_copy : {A : Type 0} → (A → ℕ) → Files A → Text → ℕ → Bool
has_complete_copy size f dest expected = elim (f dest) [
  | none ↦ false
  | some a ↦ if expected == 0 then true else leb expected (size a)
]

-- The columns of `download_queue` that an import writes.
pub record Origin : Type 0 where
  pub filename : Text
  pub source_dir : Text
  pub remote_size : ℕ
  pub recorded_at : ℕ
  pub camera : Text
  pub event_type : Text
  pub state : State
  pub enqueued_at : ℕ
  pub finished_at : Option ℕ
  pub manual : Bool

abbrev pub has_filename : Text → Origin → Bool
has_filename name r = text_eq r.filename name

abbrev pub finish_origin : ℕ → Origin → Origin
finish_origin now r = record r { state = done; finished_at = some now; manual = true }

-- `_record_origin`
unfoldable pub record_origin : ℕ → ScanItem → List Origin → List Origin
unfolding text_eq update origin_source_dir
record_origin now item t =
    if any (has_filename item.basename) t
    then update (has_filename item.basename) (finish_origin now) t
    else t
      ++ (record {
        filename = item.basename;
        source_dir = origin_source_dir item;
        remote_size = item.size_bytes;
        recorded_at = item.timestamp;
        camera = item.camera;
        event_type = item.event_type;
        state = done;
        enqueued_at = now;
        finished_at = some now;
        manual = true;
      })
        ∷ []

-- `shutil.copy2` copies, or raises and leaves something or nothing.
pub data Copy (A : Type 0) : Type 0 where
  copies : Copy A
  breaks_off : Option A → Copy A

-- Which calls raise an OSError, and what `make_room_for` and `extract_gps_data` do.
pub record Calls (A : Type 0) : Type 0 where
  pub room : Files A → Bool × Files A
  pub makes_staging : Bool
  pub copy : Copy A
  pub removes : Bool
  pub moves : Bool
  pub makes_folder : Bool
  pub places : Bool
  pub restores : Bool
  pub extract_gps : Files A → Files A

-- The status, none for an exception that is passed on, and what the import leaves.
abbrev pub Ingested : Type 0 → Type 0
Ingested A = Option Status × Files A × List Origin

module _ {A : Type 0} (size : A → ℕ) (now : ℕ) (snap : Snap) (o : Calls A) (item : ScanItem) where
  abbrev pub drop_if : Bool → Text → Files A → Files A
  drop_if true p f = write_file p none f
  drop_if false p f = f

  -- The answer after a placement that failed.
  abbrev pub give_up : (restoring : Bool) → Text → Files A → List Origin → Ingested A
  give_up true tmp f t =
      (some error, if o.restores && is_some (f tmp) then replace_file tmp item.src_path f else f, t)
  give_up false tmp f t = (some error, drop_if o.removes tmp f, t)

  -- From the staged file on.
  unfoldable pub place_clip : (restoring : Bool) → Text → Files A → List Origin → Ingested A
  unfolding text_eq dest_for record_origin
  place_clip restoring tmp f t =
      if o.makes_folder && o.places && is_some (f tmp)
      then (
        some imported,
        o.extract_gps (replace_file tmp (dest_for snap item) f),
        record_origin now item t,
      )
      else give_up restoring tmp f t

  abbrev pub of_copied : Text → Files A → List Origin → Option A → Ingested A
  of_copied tmp f t none = (some error, f, t)
  of_copied tmp f t (some a) =
      if size a == item.size_bytes
      then place_clip false tmp (write_file tmp (some a) f) t
      else (some error, drop_if o.removes tmp (write_file tmp (some a) f), t)

  -- The copy from another volume, and the check of its size.
  abbrev pub copy_clip : Copy A → Text → Files A → List Origin → Ingested A
  copy_clip copies tmp f t = of_copied tmp f t (f item.src_path)
  copy_clip (breaks_off left) tmp f t = (some error, write_file tmp left f, t)

  abbrev pub move_clip : Text → Files A → List Origin → Ingested A
  move_clip tmp f t =
      if o.moves && is_some (f item.src_path)
      then place_clip true tmp (replace_file item.src_path tmp f) t
      else (some error, f, t)

  unfoldable pub stage_clip : (cross_volume : Bool) → Text → Files A → List Origin → Ingested A
  unfolding text_eq place_clip
  stage_clip true tmp f t = copy_clip o.copy tmp f t
  stage_clip false tmp f t = move_clip tmp f t

  unfoldable pub with_room : (cross_volume : Bool) → Bool × Files A → List Origin → Ingested A
  unfolding stage_clip join_path
  with_room cross (false, f) t = (some over_quota_older, f, t)
  with_room cross (true, f) t =
      if o.makes_staging
      then stage_clip cross (join_path (staging_of snap) item.basename) f t
      else (none, f, t)

  unfoldable pub ingest_clip : (cross_volume staged : Bool) → Files A → List Origin → Ingested A
  unfolding has_complete_copy dest_for with_room place_clip
  ingest_clip cross staged f t =
      if has_complete_copy size f (dest_for snap item) item.size_bytes
      then (some already_present, f, t)
      else if staged
      then place_clip false item.src_path f t
      else with_room cross (o.room f) t
