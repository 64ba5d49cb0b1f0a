-- ===== src/Retention/Pressure.antt =====
-- retention.py: `_disk_pressure_pass`.
use viofosync.Prelude.{
  ℕ, zero, suc, ◌+◌, Bool, true, false, not, ◌&&◌, List, [], ◌∷◌, Option, none, some, ltb,
  if◌then◌else◌, select, count, take, length,
}
use viofosync.Prelude.Text.{Text}
use viofosync.Retention.{
  Clip, Host, Store, is_ro, protected_id, delete_clip_files, delete_index_row, add_dir,
  prune_empty_dirs,
}
use viofosync.Retention.Space.{Rules, over_threshold, cache_subtract}

abbrev pub batch_size : ℕ
batch_size = 16

-- The local variables of a pass.
pub record Progress : Type 0 where
  pub deleted : ℕ
  pub bytes_freed : ℕ
  pub failed_ids : List ℕ
  pub pruned : List Text

-- Why a pass is over: its return from within a batch, its loop's end, or an exception.
pub data Stop : Type 0 where
  early ended raised : Stop

-- The summary that a pass returns.
pub record Freed : Type 0 where
  pub deleted : ℕ
  pub bytes_freed : ℕ
  pub protected : ℕ
  pub failed : ℕ

-- `ORDER BY timestamp ASC`
unfoldable pub by_age : Clip → List Clip → List Clip
by_age c [] = c ∷ []
by_age c (d ∷ cs) = if ltb d.timestamp c.timestamp then d ∷ by_age c cs else c ∷ d ∷ cs

unfoldable pub oldest_first : List Clip → List Clip
unfolding by_age
oldest_first [] = []
oldest_first (c ∷ cs) = by_age c (oldest_first cs)

-- The WHERE clause of a batch.
unfoldable pub is_candidate : Rules → List ℕ → Clip → Bool
is_candidate rules failed_ids c =
    not c.locked
    && not (rules.protect_ro && is_ro c)
    && not (protected_id failed_ids c)
    && not (protected_id rules.protect_ids c)

unfoldable pub next_batch : Rules → List ℕ → List Clip → List Clip
unfolding oldest_first is_candidate
next_batch rules failed_ids clips =
    take batch_size (oldest_first (select (is_candidate rules failed_ids) clips))

module _ {W : Type 0} (h : Host W) (rules : Rules) where
  unfoldable pub note_row : Clip → Store W → Progress → ℕ × Bool × W → Bool × Store W × Progress
  unfolding cache_subtract delete_index_row add_dir
  note_row c s p (freed, true, w) = (
    true,
    delete_index_row c.id (cache_subtract h freed (record s { world = w })),
    record p {
      deleted = p.deleted + 1;
      bytes_freed = p.bytes_freed + freed;
      pruned = add_dir h (h.dirname c.path) p.pruned;
    },
  )
  note_row c s p (freed, false, w) =
      (false, record s { world = w }, record p { failed_ids = c.id ∷ p.failed_ids })

  -- One row of a batch, with whether its recording is gone.
  unfoldable pub evict : Clip → Store W → Progress → Bool × Store W × Progress
  unfolding delete_clip_files note_row
  evict c s p = note_row c s p (delete_clip_files h c s.world)

  -- A batch that is through has no stop.
  abbrev pub Batch : Type 0
  Batch = Store W × Progress × Option Stop

  abbrev pub check_again : (Store W → Progress → Batch) → Progress → Option Bool × Store W → Batch
  check_again rest p (none, s) = (s, p, some raised)
  check_again rest p (some true, s) = rest s p
  check_again rest p (some false, s) = (s, p, some early)

  abbrev pub next_row : (Store W → Progress → Batch) → Bool × Store W × Progress → Batch
  next_row rest (false, s, p) = rest s p
  next_row rest (true, s, p) = check_again rest p (over_threshold h rules false s)

  unfoldable pub sweep_rows : List Clip → Store W → Progress → Batch
  unfolding evict over_threshold
  sweep_rows [] s p = (s, p, none)
  sweep_rows (c ∷ rows) s p = next_row (sweep_rows rows) (evict c s p)

  -- `none` is out of fuel.
  abbrev pub Loop : Type 0
  Loop = Option (Store W × Progress × Stop)

  abbrev pub after_batch : (Store W → Progress → Loop) → Batch → Loop
  after_batch again (s, p, none) = again s p
  after_batch again (s, p, some stop) = some (s, p, stop)

  abbrev pub on_batch : (Store W → Progress → Loop) → Store W → Progress → List Clip → Loop
  on_batch again s p [] = some (s, p, ended)
  on_batch again s p (c ∷ rows) = after_batch again (sweep_rows (c ∷ rows) s p)

  abbrev pub on_pressure : (Store W → Progress → Loop) → Progress → Option Bool × Store W → Loop
  on_pressure again p (none, s) = some (s, p, raised)
  on_pressure again p (some false, s) = some (s, p, ended)
  on_pressure again p (some true, s) = on_batch again s p (next_batch rules p.failed_ids s.clips)

  unfoldable pub pressure_loop : ℕ → Store W → Progress → Loop
  unfolding sweep_rows next_batch over_threshold
  pressure_loop zero s p = none
  pressure_loop (suc fuel) s p = on_pressure (pressure_loop fuel) p (over_threshold h rules true s)

  abbrev summary : Progress → ℕ → Freed
  summary p protected = record {
    deleted = p.deleted;
    bytes_freed = p.bytes_freed;
    protected = protected;
    failed = length p.failed_ids;
  }

  abbrev pub pruned_store : Store W → Progress → Store W
  pruned_store s p = record s { world = prune_empty_dirs h p.pruned s.world }

  abbrev pub count_protected : Progress → Option Bool × Store W → Store W × Option Freed
  count_protected p (none, s) = (s, none)
  count_protected p (some false, s) = (s, some (summary p 0))
  count_protected p (some true, s) = (s, some (summary p (count is_ro s.clips)))

  -- What follows the loop; an exception leaves no summary, and no folder is pruned.
  unfoldable pub conclude : Store W × Progress × Stop → Store W × Option Freed
  unfolding over_threshold prune_empty_dirs
  conclude (s, p, raised) = (s, none)
  conclude (s, p, early) = (pruned_store s p, some (summary p 0))
  conclude (s, p, ended) =
      let s' = pruned_store s p in
      if rules.protect_ro
      then count_protected p (over_threshold h rules true s')
      else (s', some (summary p 0))

  abbrev pub no_progress : Progress
  no_progress = record { deleted = 0; bytes_freed = 0; failed_ids = []; pruned = [] }

  -- Each round but the last has a clip less to consider.
  unfoldable pub disk_pressure_pass : Store W → Option (Store W × Option Freed)
  unfolding pressure_loop conclude
  disk_pressure_pass s = elim (pressure_loop (length s.clips + 1) s no_progress) [
    | none ↦ none
    | some r ↦ some (conclude r)
  ]
