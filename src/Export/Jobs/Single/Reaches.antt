-- ===== src/Export/Jobs/Single/Reaches.antt =====
-- web/services/exporter.py: the worker's job is the only one that renders.
use mathlib.Core.Option.{some-injective}
use viofosync.Prelude.{
  ℕ, ◌≤◌, ◌≡◌, refl, sym, ◌∙◌, Bool, true, false, List, [], ◌∷◌, Option, some, arith, ==_iff, count,
  All, All-imp, inl, inr, Bool-cases,
}
use viofosync.Queue.Keys.{keyed, Unique}
use viofosync.Export.Jobs.{ExportJob, is_rendering, Exports, timeline_job}
use viofosync.Export.Jobs.Steps.{
  Step, enqueues, enqueues_timeline, pops, pauses, resumes, deletes, renders, restarts, stops,
  Reachable, at_first, and_then, enqueue_clips-by, enqueue_timeline-by,
}
use viofosync.Export.Jobs.Single.{
  job_id, Fits, Single, insert-Single, pop_next-Single, pause-Single, resume-Single,
}
use viofosync.Export.Jobs.Single.Endings.{delete_job-Single, process_job-Single}
use viofosync.Export.Jobs.Single.Starts.{restart-Single, stop-Single}

Step-Single : (s s' : Exports) → Step s s' → Single s → Single s'
Step-Single s s' (enqueues now ids index e) h =
    enqueue_clips-by Single now ids index s s' (λ j i q p o. insert-Single j s i (rw q refl) h) e
Step-Single s s' (enqueues_timeline now segs e) h =
    enqueue_timeline-by Single now segs s s'
      (λ g rest.
        insert-Single (timeline_job now s.next_id g rest) s (unfold timeline_job in refl)
          (unfold timeline_job in refl) h)
      e
Step-Single s s' (pops now e) h = pop_next-Single now s e h
Step-Single s s' (pauses i) h = pause-Single i s h
Step-Single s s' (resumes i) h = resume-Single i s h
Step-Single s s' (deletes i) h = delete_job-Single i s h
Step-Single s s' (renders now outcome asked) h = process_job-Single now outcome s asked h
Step-Single s s' (restarts now) h = restart-Single now s h
Step-Single s s' (stops now later outcome) h = stop-Single now later outcome s h

Reachable-Single : (s : Exports) → Reachable s → Single s
Reachable-Single s at_first = (tt, tt, tt)
Reachable-Single s (and_then r step) = Step-Single _ s step (Reachable-Single _ r)

none_with :
    (n : ℕ) (current : Option ℕ) (c : Bool) (i : ℕ) (t : List ExportJob)
    → current ≡ some i
    → All (Fits n current c) t
    → All (λ y. keyed job_id i y ≡ false) t
    → count is_rendering t ≡ 0
none_with n current c i [] e h u = refl
none_with n current c i (x ∷ t) e ((l, k, a), hs) (o, u) = elim (Bool-cases (is_rendering x)) [
  | inl r ↦ absurd (let this = (==_iff x.id i).1 (some-injective _ _ (sym (k r) ∙ e)) in cc)
  | inr r ↦ rw r (omega (arith, none_with n current c i t e hs u))
]

count-Single :
    (n : ℕ) (current : Option ℕ) (c : Bool) (t : List ExportJob)
    → All (Fits n current c) t
    → Unique job_id t
    → count is_rendering t ≤ 1
count-Single n current c [] h u = omega arith
count-Single n current c (x ∷ t) ((l, k, a), hs) (o, u) = elim (Bool-cases (is_rendering x)) [
  | inl r ↦ rw (r, none_with n current c x.id t (k r) hs o) (omega arith)
  | inr r ↦ rw r (omega (arith, count-Single n current c t hs u))
]

-- In every state that the worker, the routes, restarts and stops reach from an empty table, where the
-- worker takes a job only when it has none and a stop is followed by the next start (the moments
-- between the two are not among the states): at most one job is running or paused; each such job is
-- the one that the worker has; and once its cancellation is asked for, no row is left for it.
pub one_job_renders :
    (s : Exports)
    → Reachable s
    → (count is_rendering s.jobs ≤ 1)
      × All (λ j. is_rendering j ≡ true → s.current ≡ some j.id) s.jobs
      × All (λ j. s.cancel_current ≡ true → s.current ≡ some j.id → ⊥) s.jobs
one_job_renders s r =
    let (h, u, b) = Reachable-Single s r in
    (
      count-Single s.next_id s.current s.cancel_current s.jobs h u,
      All-imp s.jobs (λ x (l, k, a). k) h,
      All-imp s.jobs (λ x (l, k, a). a) h,
    )
