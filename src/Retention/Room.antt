-- ===== src/Retention/Room.antt =====
-- retention.py: `make_room_for`, which evicts old clips for one that is imported.
use viofosync.Prelude.{
  ℕ, zero, suc, ◌+◌, ◌-◌, ◌*◌, ◌^◌, Bool, true, false, not, ◌&&◌, ◌||◌, List, [], ◌∷◌, Option, none,
  some, leb, ltb, ◌==◌, if◌then◌else◌, select, length,
}
use viofosync.Prelude.Text.{Text}
use viofosync.Queue.Table.{first_by}
use viofosync.Retention.{
  Clip, Host, Store, is_ro, protected_id, delete_clip_files, delete_index_row, add_dir,
  prune_empty_dirs,
}
use viofosync.Retention.Space.{Rules}

-- The WHERE clause.
unfoldable pub is_evictable : Rules → ℕ → List ℕ → Clip → Bool
is_evictable rules before_ts failed_ids c =
    ltb c.timestamp before_ts
    && not c.locked
    && not (rules.protect_ro && is_ro c)
    && not (protected_id rules.protect_ids c)
    && not (protected_id failed_ids c)

abbrev pub older : Clip → Clip → Bool
older a b = ltb a.timestamp b.timestamp

unfoldable pub oldest : Rules → ℕ → List ℕ → List Clip → Option Clip
unfolding first_by is_evictable
oldest rules before_ts failed_ids clips =
    first_by older (select (is_evictable rules before_ts failed_ids) clips)

-- The local variables of the loop.
pub record Room : Type 0 where
  pub used : ℕ
  pub failed_ids : List ℕ
  pub pruned : List Text

module _ {W : Type 0} (h : Host W) (rules : Rules) (size before_ts : ℕ) where
  -- An OSError of `disk_usage` counts as not over.
  abbrev pct_over : Option (ℕ × ℕ) → Bool
  pct_over none = false
  pct_over (some (used, total)) = ltb 0 total && leb (rules.disk_pct * total) ((used + size) * 100)

  -- `_over`
  unfoldable pub is_over : W → ℕ → Bool
  is_over w used =
      (not (rules.quota_gb == 0) && leb (rules.quota_gb * 2 ^ 30) (used + size))
      || (not (rules.disk_pct == 0) && pct_over (h.disk_usage w))

  abbrev pub note_eviction : Clip → Store W → Room → ℕ × Bool × W → Store W × Room
  note_eviction c s r (freed, false, w) =
      (record s { world = w }, record r { failed_ids = c.id ∷ r.failed_ids })
  note_eviction c s r (freed, true, w) = (
    delete_index_row c.id (record s { world = w }),
    record r { pruned = add_dir h (h.dirname c.path) r.pruned; used = r.used - freed },
  )

  -- `none` is out of fuel.
  abbrev pub RoomLoop : Type 0
  RoomLoop = Option (Store W × Room × Bool)

  abbrev pub on_oldest : (Store W × Room → RoomLoop) → Store W → Room → Option Clip → RoomLoop
  on_oldest again s r none = some (s, r, false)
  on_oldest again s r (some c) = again (note_eviction c s r (delete_clip_files h c s.world))

  abbrev pub on_over : (Store W × Room → RoomLoop) → Store W → Room → Bool → RoomLoop
  on_over again s r false = some (s, r, true)
  on_over again s r true = on_oldest again s r (oldest rules before_ts r.failed_ids s.clips)

  unfoldable pub room_loop : ℕ → Store W × Room → RoomLoop
  unfolding is_over oldest delete_clip_files delete_index_row add_dir
  room_loop zero (s, r) = none
  room_loop (suc fuel) (s, r) = on_over (room_loop fuel) s r (is_over s.world r.used)

  abbrev pub start_room : Store W → Room
  start_room s = record {
    used = if rules.quota_gb == 0 then 0 else h.scan_dir_bytes s.world;
    failed_ids = [];
    pruned = [];
  }

  abbrev pub finish_room : RoomLoop → Option (Store W × Bool)
  finish_room none = none
  finish_room (some (s, r, fits)) =
      some (record s { world = prune_empty_dirs h r.pruned s.world }, fits)

  -- Each round but the last has a clip less to consider.
  unfoldable pub make_room_for : Store W → Option (Store W × Bool)
  unfolding room_loop prune_empty_dirs
  make_room_for s =
      if (rules.disk_pct == 0) && (rules.quota_gb == 0)
      then some (s, true)
      else finish_room (room_loop (length s.clips + 1) (s, start_room s))
