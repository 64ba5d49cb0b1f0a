-- ===== src/Export/Jobs/Single.antt =====
-- web/services/exporter.py: the job of the worker, through the statements that start it.
mod Endings
mod Starts
pub mod Reaches
use mathlib.Core.List.{Memᴰ}
use mathlib.Core.Option.{some-injective}
use mathlib.Core.Path.{subst}
use viofosync.Prelude.{
  ℕ, zero, suc, ◌+◌, ◌≤◌, ◌<◌, ◌≡◌, refl, sym, ap, ◌∙◌, Bool, true, false, not, ◌&&◌, ◌||◌, List,
  [], ◌∷◌, ◌++◌, Option, none, some, arith, tests, ◌==◌, ==_iff, ltb, if◌then◌else◌, is_some,
  select, any, count, all, All, All-imp, All_mem, inl, inr, Bool-cases, Option-cases,
}
use viofosync.Prelude.Text.{Text, codes}
use viofosync.Queue.Keys.{keyed, Unique, update-Unique, select-Unique, append-Unique}
use viofosync.Queue.Table.{update, mem_of_mem-select, first_by}
use viofosync.Export.{Segment, Indexed}
use viofosync.Export.Jobs.Steps.{by_test}
use viofosync.Export.Jobs.{
  ExportState, queued, running, paused, done, failed, ExportJob, is_in, is_rendering, has_job,
  Exports, is_current, drop_id, insert_job, enqueue_clips, enqueue_timeline, timeline_job,
  created_before, begin_job, pop_job, pop_next, set_state, pause, resume, cancel, discard_partial,
  remove_job, delete_job,
}
use viofosync.Export.Jobs.Finish.{
  finish_row, write_finish, finish_job, Rendered, export_cancelled, rendered, crashed, settle_job,
  no_job, process_job,
}
use viofosync.Export.Jobs.Restart.{
  interrupt, reconcile_orphan_jobs, sweep_orphan_exports, restart_exports,
}

abbrev pub job_id : ExportJob → ℕ
job_id j = j.id

-- A row of a table whose next id, worker's job and cancellation are these.
abbrev pub Fits : ℕ → Option ℕ → Bool → ExportJob → Type 0
Fits n current cancelled j =
    (j.id < n)
    × (is_rendering j ≡ true → current ≡ some j.id)
    × (cancelled ≡ true → current ≡ some j.id → ⊥)

abbrev pub Below : ℕ → Option ℕ → Type 0
Below n none = Unit
Below n (some i) = i < n

abbrev pub Holds : List ExportJob → ℕ → Option ℕ → Bool → Type 0
Holds jobs n current cancelled =
    All (Fits n current cancelled) jobs × Unique job_id jobs × Below n current

abbrev pub Single : Exports → Type 0
Single s = Holds s.jobs s.next_id s.current s.cancel_current

All-append :
    (P : ExportJob → Type 0) (x : ExportJob) (t : List ExportJob)
    → All P t
    → P x
    → All P (t ++ x ∷ [])
All-append P x [] h p = (p, tt)
All-append P x (y ∷ t) (h, hs) p = (h, All-append P x t hs p)

All-select :
    (P : ExportJob → Type 0) (p : ExportJob → Bool) (t : List ExportJob)
    → All P t
    → All P (select p t)
All-select P p [] h = tt
All-select P p (x ∷ t) (h, hs) = elim (Bool-cases (p x)) [
  | inl e ↦ rw e (h, All-select P p t hs)
  | inr e ↦ rw e (All-select P p t hs)
]

below-fresh :
    (n : ℕ) (current : Option ℕ) (c : Bool) (t : List ExportJob)
    → All (Fits n current c) t
    → any (keyed job_id n) t ≡ false
below-fresh n current c [] h = refl
below-fresh n current c (x ∷ t) ((lt, h, k), hs) =
    let ih = below-fresh n current c t hs in ground (arith, ==_iff x.id n)

Below-absent : (n : ℕ) (current : Option ℕ) → Below n current → current ≡ some n → ⊥
Below-absent n none h e = cc
Below-absent n (some i) h e = let e' : i ≡ n = cc in omega (arith, h, e')

Below-suc : (n : ℕ) (current : Option ℕ) → Below n current → Below (suc n) current
Below-suc n none h = tt
Below-suc n (some i) h = omega arith

-- A queued row with the next id.
pub insert-Single :
    (j : ExportJob) (s : Exports)
    → j.id ≡ s.next_id
    → is_rendering j ≡ false
    → Single s
    → Single (insert_job j s)
insert-Single j s e q (h, u, b) = (
  All-append (Fits (suc s.next_id) s.current s.cancel_current) j s.jobs
      (All-imp s.jobs (λ x (l, k, a). (omega arith, k, a)) h)
      (omega arith, (λ r. cc), λ c k. Below-absent s.next_id s.current b (k ∙ ap some e)),
  append-Unique job_id j s.jobs (rw e (below-fresh s.next_id s.current s.cancel_current s.jobs h))
      u,
  Below-suc s.next_id s.current b,
)

pub update-Single :
    (n : ℕ) (current current' : Option ℕ) (cancelled cancelled' : Bool) (p : ExportJob → Bool)
    (f : ExportJob → ExportJob) (t : List ExportJob)
    → ((x : ExportJob) → (f x).id ≡ x.id)
    → ((x : ExportJob)
        → Fits n current cancelled x
        → Fits n current' cancelled' (if p x then f x else x))
    → All (Fits n current cancelled) t
    → All (Fits n current' cancelled') (update p f t)
unfolding update
update-Single n current current' cancelled cancelled' p f [] same step h = tt
update-Single n current current' cancelled cancelled' p f (x ∷ t) same step (h, hs) =
    (step x h, update-Single n current current' cancelled cancelled' p f t same step hs)

-- A popped job is the worker's, and no other was.
pop_job-Single :
    (now : ℕ) (o : Option ExportJob) (s : Exports)
    → s.current ≡ none
    → ((j : ExportJob) → o ≡ some j → j.id < s.next_id)
    → Single s
    → Single (pop_job now o s)
pop_job-Single now none s idle lt h = h
pop_job-Single now (some j) s idle lt (h, u, b) = (
  update-Single s.next_id s.current (some j.id) s.cancel_current false (has_job j.id)
      (begin_job now) s.jobs (λ x. refl)
      (λ x (l, k, a). elim (Bool-cases (x.id == j.id)) [
        | inl e ↦ rw e (l, (λ r. ap some (sym ((==_iff x.id j.id).0 e))), λ c. cc)
        | inr e ↦ rw e (l, (λ r. absurd (let k' = k r in cc)), λ c. cc)
      ])
      h,
  update-Unique job_id (has_job j.id) (begin_job now) (λ x. refl) s.jobs u,
  lt j refl,
)

first_by-mem :
    (before : ExportJob → ExportJob → Bool) (t : List ExportJob) (j : ExportJob)
    → first_by before t ≡ some j
    → Memᴰ j t
unfolding first_by
first_by-mem before [] j e = cc
first_by-mem before (r ∷ t) j e = go (first_by before t) (first_by-mem before t j) e
  where
    go :
        (o : Option ExportJob)
        → (o ≡ some j → Memᴰ j t)
        → (elim o [ none ↦ some r | some s ↦ if before s r then some s else some r ]) ≡ some j
        → Memᴰ j (r ∷ t)
    go none h e = Memᴰ.head (sym (some-injective _ _ e))
    go (some s) h e = elim (Bool-cases (before s r)) [
      | inl b ↦ Memᴰ.tail (h (rw b at e))
      | inr b ↦ Memᴰ.head (sym (some-injective _ _ (rw b at e)))
    ]

pub pop_next-Single :
    (now : ℕ) (s : Exports) → s.current ≡ none → Single s → Single (pop_next now s)
unfolding pop_next
pop_next-Single now s idle (h, u, b) =
    pop_job-Single now (first_by created_before (select (is_in queued) s.jobs)) s idle
      (λ j e.
        (All_mem (Fits s.next_id s.current s.cancel_current) s.jobs h
          (mem_of_mem-select (is_in queued) s.jobs
            (first_by-mem created_before (select (is_in queued) s.jobs) j e)).0).0)
      (h, u, b)

pub is_current-some :
    (i : ℕ) (current : Option ℕ)
    → (elim current [ none ↦ false | some k ↦ k == i ]) ≡ true
    → current ≡ some i
is_current-some i none e = cc
is_current-some i (some k) e = ap some ((==_iff k i).0 e)

-- A new state for the worker's job.
pub set_state-Single :
    (i : ℕ) (state : ExportState) (b : Bool) (s : Exports)
    → is_current i s ≡ true
    → Single s
    → Single (set_state i state (record s { is_paused = b }))
set_state-Single i state b s e (h, u, l) = (
  update-Single s.next_id s.current s.current s.cancel_current s.cancel_current (has_job i)
      (λ j. record j { state = state }) s.jobs (λ x. refl)
      (λ x (m, k, a). elim (Bool-cases (x.id == i)) [
        | inl same ↦
            rw same
              (m, (λ r. is_current-some i s.current e ∙ ap some (sym ((==_iff x.id i).0 same))), a)
        | inr other ↦ rw other (m, k, a)
      ])
      h,
  update-Unique job_id (has_job i) (λ j. record j { state = state }) (λ x. refl) s.jobs u,
  l,
)

pub pause-Single : (i : ℕ) (s : Exports) → Single s → Single (pause i s).1
unfolding pause
pause-Single i s h =
    by_test Single (is_current i s) (true, set_state i paused (record s { is_paused = true }))
      (false, s) (λ e. set_state-Single i paused true s e h) (λ e. h)

pub resume-Single : (i : ℕ) (s : Exports) → Single s → Single (resume i s).1
unfolding resume
resume-Single i s h =
    by_test Single (is_current i s) (true, set_state i running (record s { is_paused = false }))
      (false, s) (λ e. set_state-Single i running false s e h) (λ e. h)
