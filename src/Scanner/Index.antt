-- ===== src/Scanner/Index.antt =====
-- web/services/scanner.py: the table `clip_index`, its upserts, and `scan`.
use viofosync.Prelude.{
  ℕ, suc, Bool, true, false, not, ◌&&◌, ◌||◌, List, [], ◌∷◌, ◌++◌, map, Option, none, some,
  if◌then◌else◌, length, select, any, ◌>>=◌,
}
use viofosync.Prelude.Text.{Text, text_eq}
use viofosync.Grouping.{Grouping}
use viofosync.Queue.Table.{update}
use viofosync.Queue.Row.{Table}
use viofosync.DeriveQueue.{Jobs, enqueue_missing}
use viofosync.Scanner.{ClipMeta, Disk, clip_meta_for, iter_clips}

-- A row of `clip_index`, and the table with its next id.
pub record Entry : Type 0 where
  pub id : ℕ
  pub path : Text
  pub basename : Text
  pub group_name : Text
  pub timestamp : ℕ
  pub camera : Text
  pub sequence : ℕ
  pub event_type : Text
  pub size_bytes : ℕ
  pub has_gpx : Bool
  pub gps_examined : Bool
  pub locked : Bool
  pub duration_s : Option ℕ
  pub scanned_at : ℕ

pub record ClipIndex : Type 0 where
  pub rows : List Entry
  pub next_id : ℕ

abbrev pub has_path : Text → Entry → Bool
has_path path e = text_eq e.path path

abbrev pub refreshed : ClipMeta → ℕ → Entry → Entry
refreshed clip now e = record e {
  size_bytes = clip.size_bytes;
  has_gpx = clip.has_gpx;
  gps_examined = e.gps_examined || clip.has_gpx;
  event_type = clip.event_type;
  scanned_at = now;
}

abbrev pub new_entry : ℕ → ClipMeta → ℕ → Entry
new_entry id clip now = record {
  id = id;
  path = clip.path;
  basename = clip.basename;
  group_name = clip.group_name;
  timestamp = clip.timestamp;
  camera = clip.camera;
  sequence = clip.sequence;
  event_type = clip.event_type;
  size_bytes = clip.size_bytes;
  has_gpx = clip.has_gpx;
  gps_examined = clip.has_gpx;
  locked = false;
  duration_s = none;
  scanned_at = now;
}

unfoldable pub upsert_clip : ClipMeta → ℕ → ClipIndex → ClipIndex
unfolding text_eq update
upsert_clip clip now x =
    if any (has_path clip.path) x.rows
    then record x { rows = update (has_path clip.path) (refreshed clip now) x.rows }
    else record { rows = x.rows ++ new_entry x.next_id clip now ∷ []; next_id = suc x.next_id }

unfoldable pub id_at : Text → List Entry → Option ℕ
unfolding text_eq
id_at path [] = none
id_at path (e ∷ rows) = if has_path path e then some e.id else id_at path rows

unfoldable pub index_meta : ℕ → ClipIndex → Option ClipMeta → ClipIndex × Option ℕ
unfolding upsert_clip id_at
index_meta now x none = (x, none)
index_meta now x (some meta) = let x' = upsert_clip meta now x in (x', id_at meta.path x'.rows)

-- `index_one_clip`; the outer none is the ValueError.
unfoldable pub index_one_clip :
    Disk → Text → Grouping → Text → Text → ℕ → ClipIndex → Option (ClipIndex × Option ℕ)
unfolding clip_meta_for index_meta
index_one_clip disk destination grouping filename source_dir now x =
    clip_meta_for disk destination grouping filename source_dir >>= λ meta.
    some (index_meta now x meta)

unfoldable pub upsert_clips : List ClipMeta → ℕ → ClipIndex → ClipIndex
unfolding upsert_clip
upsert_clips [] now x = x
upsert_clips (clip ∷ clips) now x = upsert_clips clips now (upsert_clip clip now x)

-- `DELETE … WHERE path NOT IN (…)`, but for a scan that found nothing.
unfoldable pub prune : List Text → ClipIndex → ClipIndex
unfolding text_eq
prune [] x = x
prune (p ∷ paths) x = record x { rows = select (λ e. any (text_eq e.path) (p ∷ paths)) x.rows }

-- `locked = 0 AND basename IN (SELECT filename … WHERE locked = 1)`
abbrev pub is_lock_queued : Table → Entry → Bool
is_lock_queued queue e = not e.locked && any (λ r. r.locked && text_eq r.filename e.basename) queue

unfoldable pub carry_locks : Table → ClipIndex → ClipIndex
unfolding text_eq update
carry_locks queue x = record x {
  rows = update (is_lock_queued queue) (λ e. record e { locked = true }) x.rows;
}

unfoldable pub flush : List ClipMeta → ℕ → Table → ClipIndex → ClipIndex
unfolding upsert_clips prune carry_locks
flush clips now queue x =
    carry_locks queue (prune (map (λ c. c.path) clips) (upsert_clips clips now x))

-- `scan`: the index, the derive queue, and the number of clips; none is the ValueError, before
-- anything is written.
unfoldable pub scan :
    Disk → Text → Grouping → Table → ℕ → ClipIndex × Jobs → Option (ClipIndex × Jobs × ℕ)
unfolding iter_clips flush enqueue_missing
scan disk destination grouping queue now (x, jobs) =
    iter_clips disk destination grouping queue >>= λ clips.
    let x' = flush clips now queue x in
    some (x', (enqueue_missing (map (λ e. e.id) x'.rows) 1 now jobs).0, length clips)
