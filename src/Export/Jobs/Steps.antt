-- ===== src/Export/Jobs/Steps.antt =====
-- web/services/exporter.py: the steps of the export jobs.
use mathlib.Core.Option.{some-injective}
use mathlib.Core.Path.{subst}
use viofosync.Prelude.{
  ℕ, ◌≡◌, refl, Bool, true, false, List, [], ◌∷◌, Option, none, some, if◌then◌else◌, ltb, all, inl,
  inr, Bool-cases,
}
use viofosync.Export.{Segment, Indexed}
use viofosync.Export.Jobs.{
  queued, with_ids, ExportJob, Exports, drop_id, insert_job, timeline_job, enqueue_clips,
  enqueue_timeline, pop_next, pause, resume, delete_job,
}
use viofosync.Export.Jobs.Finish.{Rendered, export_cancelled, settle_job, no_job, process_job}
use viofosync.Export.Jobs.Restart.{restart_exports, shut_down}

-- What the worker, the routes and a restart do. A job is popped when none is processed; it ends by
-- the cancellation only when that was asked for. A restart follows a crash, at any point, or a stop;
-- a stop ends the process, so that nothing but the next start comes after it.
pub data Step : Exports → Exports → Type 0 where
  enqueues :
      (now : ℕ) (ids : List ℕ) (index : List Indexed) {s s' : Exports}
      → enqueue_clips now ids index s ≡ some s'
      → Step s s'
  enqueues_timeline :
      (now : ℕ) (segs : List Segment) {s s' : Exports}
      → enqueue_timeline now segs s ≡ some s'
      → Step s s'
  pops : (now : ℕ) {s : Exports} → s.current ≡ none → Step s (pop_next now s)
  pauses : (i : ℕ) {s : Exports} → Step s (pause i s).1
  resumes : (i : ℕ) {s : Exports} → Step s (resume i s).1
  deletes : (i : ℕ) {s : Exports} → Step s (delete_job i s).1
  renders :
      (now : ℕ) (outcome : Rendered) {s : Exports}
      → (outcome ≡ export_cancelled → s.cancel_current ≡ true)
      → Step s (process_job now outcome s)
  restarts : (now : ℕ) {s : Exports} → Step s (restart_exports now s)
  stops :
      (now later : ℕ) (outcome : Rendered) {s : Exports}
      → Step s (restart_exports later (shut_down now outcome s))

pub data Reachable : Exports → Type 0 where
  at_first : Reachable (record {
    jobs = [];
    next_id = 1;
    current = none;
    cancel_current = false;
    is_paused = false;
    partials = [];
    finals = [];
  })
  and_then : {s s' : Exports} → Reachable s → Step s s' → Reachable s'

-- A predicate of the answer of an operation that tests first.
pub by_test :
    (P : Exports → Type 0) (b : Bool) (x y : Bool × Exports)
    → (b ≡ true → P x.1)
    → (b ≡ false → P y.1)
    → P (if b then x else y).1
by_test P true x y f g = f refl
by_test P false x y f g = g refl

-- A predicate of the state after a job ends, by what the worker had.
pub process_job-by :
    (P : Exports → Type 0) (now : ℕ) (outcome : Rendered) (s : Exports)
    → P s
    → ((i : ℕ)
        → s.current ≡ some i
        → P (no_job (settle_job now i outcome (record s { partials = i ∷ drop_id i s.partials }))))
    → P (process_job now outcome s)
unfolding process_job
process_job-by P now outcome s idle ends = by_current s.current refl
  where
    by_current :
        (o : Option ℕ)
        → s.current ≡ o
        → P (elim o [
          | none ↦ s
          | some i ↦
              no_job (settle_job now i outcome (record s { partials = i ∷ drop_id i s.partials }))
        ])
    by_current none e = idle
    by_current (some i) e = ends i e

-- A predicate of the state after an insert, by the row that is inserted.
pub enqueue_clips-by :
    (P : Exports → Type 0) (now : ℕ) (ids : List ℕ) (index : List Indexed) (s s' : Exports)
    → ((j : ExportJob)
        → j.id ≡ s.next_id
        → j.state ≡ queued
        → j.payload ≡ with_ids ids
        → j.output_path ≡ none
        → P (insert_job j s))
    → enqueue_clips now ids index s ≡ some s'
    → P s'
unfolding enqueue_clips
enqueue_clips-by P now [] index s s' f e = cc
enqueue_clips-by P now (i ∷ ids) index s s' f e =
    subst P (some-injective _ _ e) (f _ refl refl refl refl)

pub enqueue_timeline-by :
    (P : Exports → Type 0) (now : ℕ) (segs : List Segment) (s s' : Exports)
    → ((g : Segment) (rest : List Segment) → P (insert_job (timeline_job now s.next_id g rest) s))
    → enqueue_timeline now segs s ≡ some s'
    → P s'
unfolding enqueue_timeline
enqueue_timeline-by P now [] s s' f e = cc
enqueue_timeline-by P now (g ∷ segs) s s' f e =
    elim (Bool-cases (all (λ g. ltb g.start_ts g.end_ts) (g ∷ segs))) [
      | inl good ↦ subst P (some-injective _ _ (rw good at e)) (f g segs)
      | inr bad ↦ absurd (let e' = rw bad at e in cc)
    ]
