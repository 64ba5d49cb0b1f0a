-- ===== src/Export/Jobs/Rowwise.antt =====
-- web/services/exporter.py: what holds of each row of the jobs, whatever is done.
use viofosync.Prelude.{
  ℕ, ◌≡◌, ◌⊎◌, refl, Bool, true, false, not, List, [], ◌∷◌, ◌++◌, Option, none, some, select, any,
  All, inl, inr, Bool-cases, sym, ap, ◌∙◌, ==_iff,
}
use viofosync.Prelude.Text.{Text}
use viofosync.Queue.Table.{update-All, first_by}
use viofosync.Export.{Segment}
use viofosync.Export.Jobs.{
  ExportState, queued, running, paused, ExportJob, is_in, is_rendering, has_job, Exports,
  is_current, drop_id, timeline_job, created_before, begin_job, pop_job, pop_next, set_state, pause,
  resume, cancel, discard_partial, remove_job, delete_job, with_ids,
}
use viofosync.Export.Jobs.Finish.{
  finish_row, finish_job, Rendered, export_cancelled, rendered, crashed, settle_job,
}
use viofosync.Export.Jobs.Restart.{
  interrupt, reconcile_orphan_jobs, sweep_orphan_exports, restart_exports, shut_down, stop_exports,
}
use viofosync.Export.Jobs.Steps.{
  enqueue_clips-by, enqueue_timeline-by, process_job-by, by_test, Step, enqueues, enqueues_timeline,
  pops, pauses, resumes, deletes, renders, restarts, stops, Reachable, at_first, and_then,
}

-- A predicate of rows that new rows have and that each statement keeps.
module _ (P : ExportJob → Type 0)
    (in_state : (state : ExportState) (x : ExportJob) → P x → P (record x { state = state }))
    (begun : (now : ℕ) (x : ExportJob) → P x → P (begin_job now x))
    (interrupted : (now : ℕ) (x : ExportJob) → P x → P (interrupt now x))
    (finished : (now i : ℕ) (ok : Bool) (error : Option Text) (output : Option ℕ) (x : ExportJob)
      → has_job i x ≡ true
      → (output ≡ none) ⊎ (output ≡ some i)
      → P x
      → P (finish_row now ok error output x))
    (by_clips : (ids : List ℕ) (j : ExportJob)
      → j.payload ≡ with_ids ids
      → j.output_path ≡ none
      → P j)
    (by_timeline : (now id : ℕ) (g : Segment) (segs : List Segment)
      → P (timeline_job now id g segs)) where
  abbrev AllRows : Exports → Type 0
  AllRows s = All P s.jobs

  append-AllRows : (j : ExportJob) (t : List ExportJob) → P j → All P t → All P (t ++ j ∷ [])
  append-AllRows j [] e h = (e, tt)
  append-AllRows j (x ∷ t) e (h, hs) = (h, append-AllRows j t e hs)

  select-AllRows : (p : ExportJob → Bool) (t : List ExportJob) → All P t → All P (select p t)
  select-AllRows p [] h = tt
  select-AllRows p (x ∷ t) (h, hs) = elim (Bool-cases (p x)) [
    | inl e ↦ rw e (h, select-AllRows p t hs)
    | inr e ↦ rw e (select-AllRows p t hs)
  ]

  pop_job-AllRows :
      (now : ℕ) (o : Option ExportJob) (s : Exports) → AllRows s → AllRows (pop_job now o s)
  pop_job-AllRows now none s h = h
  pop_job-AllRows now (some j) s h =
      update-All P (has_job j.id) (begin_job now) (λ x f e. begun now x f) s.jobs h

  finish_job-AllRows :
      (now i : ℕ) (ok renames : Bool) (error : Option Text) (s : Exports)
      → AllRows s
      → AllRows (finish_job now i ok renames error s)
  unfolding finish_job discard_partial
  finish_job-AllRows now i true true error s h =
      update-All P (has_job i) (finish_row now true error (some i))
        (λ x f e. finished now i true error (some i) x e (inr refl) f) s.jobs h
  finish_job-AllRows now i true false error s h =
      update-All P (has_job i) _ (λ x f e. finished now i false _ none x e (inl refl) f) s.jobs h
  finish_job-AllRows now i false renames error s h =
      update-All P (has_job i) (finish_row now false error none)
        (λ x f e. finished now i false error none x e (inl refl) f) s.jobs h

  settle_job-AllRows :
      (now i : ℕ) (outcome : Rendered) (s : Exports)
      → AllRows s
      → AllRows (settle_job now i outcome s)
  unfolding settle_job discard_partial
  settle_job-AllRows now i export_cancelled s h = h
  settle_job-AllRows now i (rendered ok renames error) s h =
      finish_job-AllRows now i ok renames error s h
  settle_job-AllRows now i (crashed error) s h =
      finish_job-AllRows now i false false (some error) s h

  remove_job-AllRows : (i : ℕ) (s : Exports) → AllRows s → AllRows (remove_job i s).1
  remove_job-AllRows i s h = elim (Bool-cases (any (has_job i) s.jobs)) [
    | inl e ↦ rw e (select-AllRows (λ j. not (has_job i j)) s.jobs h)
    | inr e ↦ rw e h
  ]

  set_state-AllRows :
      (i : ℕ) (state : ExportState) (b : Bool) (s : Exports)
      → AllRows s
      → AllRows (set_state i state (record s { is_paused = b }))
  set_state-AllRows i state b s h =
      update-All P (has_job i) (λ j. record j { state = state }) (λ x f e. in_state state x f)
        s.jobs h

  Step-AllRows : (s s' : Exports) → Step s s' → AllRows s → AllRows s'
  unfolding pop_next pause resume delete_job cancel restart_exports reconcile_orphan_jobs
      sweep_orphan_exports shut_down stop_exports
  Step-AllRows s s' (enqueues now ids index e) h =
      enqueue_clips-by AllRows now ids index s s'
        (λ j i q p o. append-AllRows j s.jobs (by_clips ids j p o) h) e
  Step-AllRows s s' (enqueues_timeline now segs e) h =
      enqueue_timeline-by AllRows now segs s s'
        (λ g rest.
          append-AllRows (timeline_job now s.next_id g rest) s.jobs
            (by_timeline now s.next_id g rest) h)
        e
  Step-AllRows s s' (pops now e) h =
      pop_job-AllRows now (first_by created_before (select (is_in queued) s.jobs)) s h
  Step-AllRows s s' (pauses i) h =
      by_test AllRows (is_current i s) (true, set_state i paused (record s { is_paused = true }))
        (false, s) (λ e. set_state-AllRows i paused true s h) (λ e. h)
  Step-AllRows s s' (resumes i) h =
      by_test AllRows (is_current i s) (true, set_state i running (record s { is_paused = false }))
        (false, s) (λ e. set_state-AllRows i running false s h) (λ e. h)
  Step-AllRows s s' (deletes i) h = remove_job-AllRows i (cancel i s).1 (
      by_test AllRows (is_current i s) (true, record s { cancel_current = true; is_paused = false })
        (false, s) (λ e. h) (λ e. h))
  Step-AllRows s s' (renders now outcome asked) h =
      process_job-by AllRows now outcome s h (λ i e.
        settle_job-AllRows now i outcome (record s { partials = i ∷ drop_id i s.partials }) h)
  Step-AllRows s s' (restarts now) h =
      update-All P is_rendering (interrupt now) (λ x f e. interrupted now x f) s.jobs h
  Step-AllRows s s' (stops now later outcome) h =
      update-All P is_rendering (interrupt later) (λ x f e. interrupted later x f)
        (shut_down now outcome s).jobs
        (process_job-by AllRows now outcome (record s { cancel_current = true; is_paused = false })
          h
          (λ i e.
            settle_job-AllRows now i outcome
              (record s {
                cancel_current = true;
                is_paused = false;
                partials = i ∷ drop_id i s.partials;
              })
              h))

  pub Reachable-AllRows : (s : Exports) → Reachable s → All P s.jobs
  Reachable-AllRows s at_first = tt
  Reachable-AllRows s (and_then r step) = Step-AllRows _ s step (Reachable-AllRows _ r)

-- The path that a row has is that of its own file.
abbrev pub Owned : ExportJob → Type 0
Owned j = (j.output_path ≡ none) ⊎ (j.output_path ≡ some j.id)

pub Reachable-Owned : (s : Exports) → Reachable s → All Owned s.jobs
Reachable-Owned =
    Reachable-AllRows Owned (λ state x h. h) (λ now x h. h) (λ now x h. h) finished_row
      (λ ids j p o. inl o) (λ now id g segs. inl (unfold timeline_job in refl))
  where
    finished_row :
        (now i : ℕ) (ok : Bool) (error : Option Text) (output : Option ℕ) (x : ExportJob)
        → has_job i x ≡ true
        → (output ≡ none) ⊎ (output ≡ some i)
        → Owned x
        → Owned (finish_row now ok error output x)
    finished_row now i ok error output x e (inl o) h = inl o
    finished_row now i ok error output x e (inr o) h = inr (o ∙ ap some (sym ((==_iff x.id i).0 e)))
