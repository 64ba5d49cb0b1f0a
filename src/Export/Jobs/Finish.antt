-- ===== src/Export/Jobs/Finish.antt =====
-- web/services/exporter.py: how a job ends.
use viofosync.Prelude.{ℕ, Bool, true, false, ◌∷◌, Option, none, some, if◌then◌else◌}
use viofosync.Prelude.Text.{Text, codes}
use viofosync.Queue.Table.{update}
use viofosync.Export.Jobs.{done, failed, ExportJob, has_job, Exports, drop_id, discard_partial}

abbrev pub finish_row : ℕ → Bool → Option Text → Option ℕ → ExportJob → ExportJob
finish_row now ok error output j = record j {
  state = if ok then done else failed;
  error = error;
  output_path = output;
  finished_at = some now;
}

abbrev pub write_finish : ℕ → ℕ → Bool → Option Text → Option ℕ → Exports → Exports
write_finish now i ok error output s = record s {
  jobs = update (has_job i) (finish_row now ok error output) s.jobs;
}

-- `_finish` with the staged file, whose rename can fail, and without it.
unfoldable pub finish_job : ℕ → ℕ → (ok renames : Bool) → Option Text → Exports → Exports
unfolding update discard_partial
finish_job now i true true error s =
    write_finish now i true error (some i)
      (record s { partials = drop_id i s.partials; finals = i ∷ drop_id i s.finals })
finish_job now i true false error s =
    write_finish now i false
      (elim error [ none ↦ some (codes "could not finalise output") | some e ↦ some e ]) none
      (discard_partial i s)
finish_job now i false renames error s = write_finish now i false error none (discard_partial i s)

-- How `_run_job` ends.
pub data Rendered : Type 0 where
  export_cancelled : Rendered
  rendered : (ok renames : Bool) → Option Text → Rendered
  crashed : Text → Rendered

unfoldable pub settle_job : ℕ → ℕ → Rendered → Exports → Exports
unfolding finish_job discard_partial
settle_job now i export_cancelled s = discard_partial i s
settle_job now i (rendered ok renames error) s = finish_job now i ok renames error s
settle_job now i (crashed error) s = finish_job now i false false (some error) s

abbrev pub no_job : Exports → Exports
no_job s = record s { current = none; cancel_current = false; is_paused = false }

-- `_process`, from the staged file on.
unfoldable pub process_job : ℕ → Rendered → Exports → Exports
unfolding settle_job
process_job now outcome s = elim s.current [
  | none ↦ s
  | some i ↦ no_job (settle_job now i outcome (record s { partials = i ∷ drop_id i s.partials }))
]
