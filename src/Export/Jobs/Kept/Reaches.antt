-- ===== src/Export/Jobs/Kept/Reaches.antt =====
-- web/services/exporter.py: the file of a finished job stays, whatever is done.
use viofosync.Prelude.{refl, true, false, select, All}
use viofosync.Queue.Table.{first_by}
use viofosync.Export.Jobs.{
  queued, running, paused, is_in, Exports, is_current, timeline_job, created_before, pop_next,
  set_state, pause, resume,
}
use viofosync.Export.Jobs.Restart.{shut_down, stop_exports}
use viofosync.Export.Jobs.Rowwise.{Owned, Reachable-Owned}
use viofosync.Export.Jobs.Steps.{
  enqueue_clips-by, enqueue_timeline-by, by_test, Step, enqueues, enqueues_timeline, pops, pauses,
  resumes, deletes, renders, restarts, stops, Reachable, at_first, and_then,
}
use viofosync.Export.Jobs.Kept.{
  Kept, AllKept, append-Kept, pop_job-Kept, set_state-Kept, process_job-Kept, delete_job-Kept,
  restart-Kept,
}

Step-Kept : (s s' : Exports) → Step s s' → All Owned s.jobs → AllKept s → AllKept s'
unfolding pop_next pause resume shut_down stop_exports
Step-Kept s s' (enqueues now ids index e) own h =
    enqueue_clips-by AllKept now ids index s s'
      (λ j i q p o. append-Kept s.finals j s.jobs (rw q refl) h) e
Step-Kept s s' (enqueues_timeline now segs e) own h =
    enqueue_timeline-by AllKept now segs s s'
      (λ g rest.
        append-Kept s.finals (timeline_job now s.next_id g rest) s.jobs
          (unfold timeline_job in refl) h)
      e
Step-Kept s s' (pops now e) own h =
    pop_job-Kept now (first_by created_before (select (is_in queued) s.jobs)) s h
Step-Kept s s' (pauses i) own h =
    by_test AllKept (is_current i s) (true, set_state i paused (record s { is_paused = true }))
      (false, s) (λ e. (set_state-Kept i paused true s (λ j. refl) h)) (λ e. h)
Step-Kept s s' (resumes i) own h =
    by_test AllKept (is_current i s) (true, set_state i running (record s { is_paused = false }))
      (false, s) (λ e. (set_state-Kept i running false s (λ j. refl) h)) (λ e. h)
Step-Kept s s' (deletes i) own h = delete_job-Kept i s own h
Step-Kept s s' (renders now outcome asked) own h = process_job-Kept now outcome s h
Step-Kept s s' (restarts now) own h = restart-Kept now s h
Step-Kept s s' (stops now later outcome) own h =
    restart-Kept later (shut_down now outcome s)
      (process_job-Kept now outcome (record s { cancel_current = true; is_paused = false }) h)

-- In every state that the worker, the routes, restarts and stops reach from an empty table, where the
-- worker takes a job only when it has none, each finished job's row names the file of the job's id,
-- and that file is there: no other job's end or delete and no start-up sweep removes it.
pub Reachable-Kept : (s : Exports) → Reachable s → All (Kept s.finals) s.jobs
Reachable-Kept s at_first = tt
Reachable-Kept s (and_then r step) = Step-Kept _ s step (Reachable-Owned _ r) (Reachable-Kept _ r)
