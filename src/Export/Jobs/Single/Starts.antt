-- ===== src/Export/Jobs/Single/Starts.antt =====
-- web/services/exporter.py: the job of the worker, through a restart and a stop.
use viofosync.Prelude.{
  ℕ, ◌<◌, ◌≡◌, refl, Bool, true, false, List, [], ◌∷◌, Option, none, some, All, All-imp, inl, inr,
  Bool-cases, if◌then◌else◌,
}
use viofosync.Prelude.Text.{Text, codes}
use viofosync.Queue.Table.{update, update-All}
use viofosync.Queue.Keys.{Unique, update-Unique}
use viofosync.Export.Jobs.{ExportJob, is_rendering, has_job, Exports, drop_id, discard_partial}
use viofosync.Export.Jobs.Finish.{
  finish_row, write_finish, finish_job, Rendered, export_cancelled, rendered, crashed, settle_job,
  no_job,
}
use viofosync.Export.Jobs.Restart.{
  interrupt, reconcile_orphan_jobs, sweep_orphan_exports, restart_exports, shut_down, stop_exports,
}
use viofosync.Export.Jobs.Steps.{process_job-by}
use viofosync.Export.Jobs.Single.{job_id, Fits, Single}

-- Rows that no worker renders.
update-over :
    (n : ℕ) (p : ExportJob → Bool) (f : ExportJob → ExportJob) (t : List ExportJob)
    → ((x : ExportJob) → (f x).id ≡ x.id)
    → ((x : ExportJob) → is_rendering (if p x then f x else x) ≡ false)
    → All (λ j. j.id < n) t
    → All (Fits n none false) (update p f t)
unfolding update
update-over n p f [] same over h = tt
update-over n p f (x ∷ t) same over (l, hs) = (
  elim (Bool-cases (p x)) [
    | inl e ↦
        let o = over x in rw e (rw (same x) l, (λ r. absurd (let o' = rw e at o in cc)), λ c. cc)
    | inr e ↦ let o = over x in rw e (l, (λ r. absurd (let o' = rw e at o in cc)), λ c. cc)
  ],
  update-over n p f t same over hs,
)

-- What a start needs of the rows that the last run left.
abbrev Numbered : Exports → Type 0
Numbered s = All (λ j. j.id < s.next_id) s.jobs × Unique job_id s.jobs

restart-Numbered : (now : ℕ) (s : Exports) → Numbered s → Single (restart_exports now s)
unfolding restart_exports reconcile_orphan_jobs sweep_orphan_exports
restart-Numbered now s (h, u) = (
  update-over s.next_id is_rendering (interrupt now) s.jobs (λ x. refl)
      (λ x. elim (Bool-cases (is_rendering x)) [ inl r ↦ rw r refl | inr r ↦ rw r r ]) h,
  update-Unique job_id is_rendering (interrupt now) (λ x. refl) s.jobs u,
  tt,
)

pub restart-Single : (now : ℕ) (s : Exports) → Single s → Single (restart_exports now s)
restart-Single now s (h, u, b) = restart-Numbered now s (All-imp s.jobs (λ x (l, k, a). l) h, u)

finish-Numbered :
    (now i : ℕ) (ok : Bool) (error : Option Text) (output : Option ℕ) (s : Exports)
    → Numbered s
    → Numbered (no_job (write_finish now i ok error output s))
finish-Numbered now i ok error output s (h, u) = (
  update-All (λ (j : ExportJob). j.id < s.next_id) (has_job i) (finish_row now ok error output)
      (λ x l e. l) s.jobs h,
  update-Unique job_id (has_job i) (finish_row now ok error output) (λ x. refl) s.jobs u,
)

settle_job-Numbered :
    (now i : ℕ) (outcome : Rendered) (s : Exports)
    → Numbered s
    → Numbered (no_job (settle_job now i outcome s))
unfolding settle_job finish_job discard_partial
settle_job-Numbered now i export_cancelled s h = h
settle_job-Numbered now i (rendered true true error) s h =
    finish-Numbered now i true error (some i) s h
settle_job-Numbered now i (rendered true false error) s h =
    finish-Numbered now i false
      (elim error [ none ↦ some (codes "could not finalise output") | some m ↦ some m ]) none s h
settle_job-Numbered now i (rendered false renames error) s h =
    finish-Numbered now i false error none s h
settle_job-Numbered now i (crashed error) s h = finish-Numbered now i false (some error) none s h

-- A stop may leave a row that renders without the worker; the next start fails it.
pub stop-Single :
    (now later : ℕ) (outcome : Rendered) (s : Exports)
    → Single s
    → Single (restart_exports later (shut_down now outcome s))
unfolding shut_down stop_exports
stop-Single now later outcome s (h, u, b) =
    let numbered : Numbered s = (All-imp s.jobs (λ x (l, k, a). l) h, u) in
    restart-Numbered later _ (
      process_job-by Numbered now outcome (record s { cancel_current = true; is_paused = false })
        numbered
        (λ i e.
          settle_job-Numbered now i outcome
            (record s {
              cancel_current = true;
              is_paused = false;
              partials = i ∷ drop_id i s.partials;
            })
            numbered))
