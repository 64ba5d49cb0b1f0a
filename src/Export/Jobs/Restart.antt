-- ===== src/Export/Jobs/Restart.antt =====
-- web/services/exporter.py: what a start-up does with the jobs and the files of the last run.
use viofosync.Prelude.{ℕ, Bool, true, false, ◌&&◌, List, [], none, some, ◌==◌, select, any, count}
use viofosync.Prelude.Text.{codes}
use viofosync.Queue.Table.{update}
use viofosync.Export.Jobs.{done, failed, ExportJob, is_in, is_rendering, Exports}
use viofosync.Export.Jobs.Finish.{Rendered, no_job, process_job}

abbrev pub interrupt : ℕ → ExportJob → ExportJob
interrupt now j = record j {
  state = failed;
  error = some (codes "interrupted by container restart");
  finished_at = some now;
}

-- `reconcile_orphan_jobs`
unfoldable pub reconcile_orphan_jobs : ℕ → List ExportJob → List ExportJob × ℕ
unfolding update
reconcile_orphan_jobs now jobs = (update is_rendering (interrupt now) jobs, count is_rendering jobs)

-- `sweep_orphan_exports`, where every removal succeeds.
abbrev pub owns_output : List ExportJob → ℕ → Bool
owns_output jobs i =
    any (λ j. is_in done j && (elim j.output_path [ none ↦ false | some k ↦ k == i ])) jobs

unfoldable pub sweep_orphan_exports : Exports → Exports
sweep_orphan_exports s = record s { partials = []; finals = select (owns_output s.jobs) s.finals }

-- A restart: the worker's memory is lost, then the hooks of the start-up run.
unfoldable pub restart_exports : ℕ → Exports → Exports
unfolding reconcile_orphan_jobs sweep_orphan_exports
restart_exports now s =
    sweep_orphan_exports (no_job (record s { jobs = (reconcile_orphan_jobs now s.jobs).0 }))

-- `ExportWorker.stop`, up to the wait for the worker's task.
unfoldable pub stop_exports : Exports → Exports
stop_exports s = record s { cancel_current = true; is_paused = false }

-- A stop of the server: the job in flight ends in some way within the wait or by the task's
-- cancellation, no other is popped, and its row is left for the next start.
unfoldable pub shut_down : ℕ → Rendered → Exports → Exports
unfolding stop_exports process_job
shut_down now outcome s = process_job now outcome (stop_exports s)
