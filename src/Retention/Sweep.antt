-- ===== src/Retention/Sweep.antt =====
-- retention.py: `sweep`, the time rule and then the rules on space.
use viofosync.Prelude.{
  ℕ, ◌+◌, Bool, true, false, not, ◌&&◌, List, [], ◌∷◌, Option, none, some, ◌==◌, if◌then◌else◌,
  select,
}
use viofosync.Prelude.Text.{Text}
use viofosync.Retention.{
  Clip, Host, Store, Reason, ro_protected, is_old, eligible_by_time, protected_id,
  delete_clip_files, delete_index_row, add_dir, prune_empty_dirs,
}
use viofosync.Retention.Space.{Rules}
use viofosync.Retention.Pressure.{Freed, disk_pressure_pass}

pub record Swept : Type 0 where
  pub deleted_time : ℕ
  pub deleted_disk : ℕ
  pub protected : ℕ
  pub failed : ℕ
  pub bytes_freed : ℕ

pub record Aged : Type 0 where
  pub deleted : ℕ
  pub protected : ℕ
  pub failed : ℕ
  pub bytes_freed : ℕ
  pub pruned : List Text

abbrev pub nothing_aged : Aged
nothing_aged = record { deleted = 0; protected = 0; failed = 0; bytes_freed = 0; pruned = [] }

module _ {W : Type 0} (h : Host W) (rules : Rules) (now max_days : ℕ) where
  abbrev pub remove_aged : Clip → Store W → Aged → ℕ × Bool × W → Store W × Aged
  remove_aged c s a (freed, false, w) = (record s { world = w }, record a { failed = a.failed + 1 })
  remove_aged c s a (freed, true, w) = (
    delete_index_row c.id (record s { world = w }),
    record a {
      bytes_freed = a.bytes_freed + freed;
      pruned = add_dir h (h.dirname c.path) a.pruned;
      deleted = a.deleted + 1;
    },
  )

  abbrev pub decide : Clip → Store W → Aged → Bool × Reason → Store W × Aged
  decide c s a (true, reason) = remove_aged c s a (delete_clip_files h c s.world)
  decide c s a (false, ro_protected) = (s, record a { protected = a.protected + 1 })
  decide c s a (false, _) = (s, a)

  unfoldable pub age_clip : Clip → Store W × Aged → Store W × Aged
  unfolding eligible_by_time delete_clip_files delete_index_row add_dir
  age_clip c (s, a) = decide c s a (eligible_by_time now max_days rules.protect_ro c)

  unfoldable pub age_clips : List Clip → Store W × Aged → Store W × Aged
  unfolding age_clip
  age_clips [] r = r
  age_clips (c ∷ rows) r = age_clips rows (age_clip c r)

  unfoldable pub time_phase : Store W → Store W × Aged
  unfolding age_clips prune_empty_dirs
  time_phase s =
      if max_days == 0
      then (s, nothing_aged)
      else (let rows =
            select (λ c. is_old now max_days c && not (protected_id rules.protect_ids c)) s.clips in
          let (s', a) = age_clips rows (s, nothing_aged) in
          (record s' { world = prune_empty_dirs h a.pruned s'.world }, a))

  abbrev totals : Aged → Freed → Swept
  totals a f = record {
    deleted_time = a.deleted;
    deleted_disk = f.deleted;
    protected = a.protected + f.protected;
    failed = a.failed + f.failed;
    bytes_freed = a.bytes_freed + f.bytes_freed;
  }

  abbrev no_space_rule : Freed
  no_space_rule = record { deleted = 0; bytes_freed = 0; protected = 0; failed = 0 }

  abbrev pub with_pass : Aged → Option (Store W × Option Freed) → Option (Store W × Option Swept)
  with_pass a none = none
  with_pass a (some (s, none)) = some (s, none)
  with_pass a (some (s, some f)) = some (s, some (totals a f))

  abbrev pub space_phase : Store W × Aged → Option (Store W × Option Swept)
  space_phase (s, a) =
      if (rules.disk_pct == 0) && (rules.quota_gb == 0)
      then some (s, some (totals a no_space_rule))
      else with_pass a (disk_pressure_pass h rules s)

  -- `none` would be out of fuel; the inner `none` is an OSError of `disk_usage`.
  unfoldable pub sweep : Store W → Option (Store W × Option Swept)
  unfolding time_phase disk_pressure_pass
  sweep s = space_phase (time_phase s)
