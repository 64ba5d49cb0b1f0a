-- ===== src/Export/Jobs/Single/Endings.antt =====
-- web/services/exporter.py: the job of the worker, through what ends it.
use mathlib.Core.Option.{some-injective}
use viofosync.Prelude.{
  ℕ, ◌<◌, ◌≡◌, refl, sym, ◌∙◌, Bool, true, false, not, List, [], ◌∷◌, Option, none, some, arith,
  ◌==◌, ==_iff, select, any, All, All-imp, inl, inr, Bool-cases,
}
use viofosync.Prelude.Text.{Text, codes}
use viofosync.Queue.Keys.{Unique, update-Unique, select-Unique}
use viofosync.Export.Jobs.{
  ExportJob, is_rendering, has_job, Exports, is_current, drop_id, cancel, discard_partial,
  remove_job, delete_job,
}
use viofosync.Export.Jobs.Finish.{
  finish_row, write_finish, finish_job, Rendered, export_cancelled, rendered, crashed, settle_job,
  no_job, process_job,
}
use viofosync.Export.Jobs.Steps.{by_test, process_job-by}
use viofosync.Export.Jobs.Single.{job_id, Below, Single, update-Single, is_current-some}

-- A row of a table where the rows of one id may have been cancelled.
abbrev Almost : ℕ → ℕ → Option ℕ → Bool → ExportJob → Type 0
Almost i n current cancelled j =
    (j.id < n)
    × (is_rendering j ≡ true → current ≡ some j.id)
    × (has_job i j ≡ false → cancelled ≡ true → current ≡ some j.id → ⊥)

abbrev Cancelled : ℕ → Exports → Type 0
Cancelled i s =
    All (Almost i s.next_id s.current s.cancel_current) s.jobs
    × Unique job_id s.jobs
    × Below s.next_id s.current

cancel-Cancelled : (i : ℕ) (s : Exports) → Single s → Cancelled i (cancel i s).1
unfolding cancel
cancel-Cancelled i s (h, u, b) =
    by_test (Cancelled i) (is_current i s)
      (true, record s { cancel_current = true; is_paused = false }) (false, s)
      (λ e. (All-imp s.jobs (λ x (l, k, a). (l, k, λ o c m. not_it x e o m)) h, u, b))
      (λ e. (All-imp s.jobs (λ x (l, k, a). (l, k, λ o. a)) h, u, b))
  where
    not_it :
        (x : ExportJob) → is_current i s ≡ true → has_job i x ≡ false → s.current ≡ some x.id → ⊥
    not_it x e o m =
        let on = (==_iff x.id i).1 (some-injective _ _ (sym m ∙ is_current-some i s.current e)) in
        cc

All-left :
    {P Q : ExportJob → Type 0} (i : ℕ) (t : List ExportJob)
    → ((x : ExportJob) → has_job i x ≡ false → P x → Q x)
    → All P t
    → All Q (select (λ j. not (has_job i j)) t)
All-left i [] f h = tt
All-left i (x ∷ t) f (h, hs) = elim (Bool-cases (x.id == i)) [
  | inl e ↦ rw e (All-left i t f hs)
  | inr e ↦ rw e (f x e h, All-left i t f hs)
]

All-absent :
    {P Q : ExportJob → Type 0} (i : ℕ) (t : List ExportJob)
    → ((x : ExportJob) → has_job i x ≡ false → P x → Q x)
    → any (has_job i) t ≡ false
    → All P t
    → All Q t
All-absent i [] f n h = tt
All-absent i (x ∷ t) f n (h, hs) =
    let e : (x.id == i) ≡ false = ground arith in (f x e h, All-absent i t f (rw e at n) hs)

remove_job-Single : (i : ℕ) (s : Exports) → Cancelled i s → Single (remove_job i s).1
remove_job-Single i s (h, u, b) = elim (Bool-cases (any (has_job i) s.jobs)) [
  | inl e ↦ rw e (
    All-left i s.jobs (λ x o (l, k, a). (l, k, a o)) h,
    select-Unique job_id (λ j. not (has_job i j)) s.jobs u,
    b,
  )
  | inr e ↦ rw e (All-absent i s.jobs (λ x o (l, k, a). (l, k, a o)) e h, u, b)
]

pub delete_job-Single : (i : ℕ) (s : Exports) → Single s → Single (delete_job i s).1
unfolding delete_job
delete_job-Single i s h = remove_job-Single i (cancel i s).1 (cancel-Cancelled i s h)

-- After its job's row is written, the worker has none.
write_finish-Single :
    (now i : ℕ) (ok : Bool) (error : Option Text) (output : Option ℕ) (s : Exports)
    → s.current ≡ some i
    → Single s
    → Single (no_job (write_finish now i ok error output s))
write_finish-Single now i ok error output s e (h, u, b) = (
  update-Single s.next_id s.current none s.cancel_current false (has_job i)
      (finish_row now ok error output) s.jobs (λ x. refl)
      (λ x (l, k, a). elim (Bool-cases (x.id == i)) [
        | inl same ↦ rw same (l, over ok x, λ c. cc)
        | inr other ↦ rw other (
          l,
          (λ r. absurd (let this = (==_iff x.id i).1 (some-injective _ _ (sym (k r) ∙ e)) in cc)),
          λ c. cc,
        )
      ])
      h,
  update-Unique job_id (has_job i) (finish_row now ok error output) (λ x. refl) s.jobs u,
  tt,
)
  where
    over :
        (ok : Bool) (x : ExportJob)
        → is_rendering (finish_row now ok error output x) ≡ true
        → none ≡ some x.id
    over true x r = cc
    over false x r = cc

finish_job-Single :
    (now i : ℕ) (ok renames : Bool) (error : Option Text) (s : Exports)
    → s.current ≡ some i
    → Single s
    → Single (no_job (finish_job now i ok renames error s))
unfolding finish_job discard_partial
finish_job-Single now i true true error s e h =
    write_finish-Single now i true error (some i)
      (record s { partials = drop_id i s.partials; finals = i ∷ drop_id i s.finals }) e h
finish_job-Single now i true false error s e h =
    write_finish-Single now i false
      (elim error [ none ↦ some (codes "could not finalise output") | some m ↦ some m ]) none
      (discard_partial i s) e h
finish_job-Single now i false renames error s e h =
    write_finish-Single now i false error none (discard_partial i s) e h

settle_job-Single :
    (now i : ℕ) (outcome : Rendered) (s : Exports)
    → s.current ≡ some i
    → (outcome ≡ export_cancelled → s.cancel_current ≡ true)
    → Single s
    → Single (no_job (settle_job now i outcome s))
unfolding settle_job discard_partial
settle_job-Single now i export_cancelled s e asked (h, u, b) =
    (All-imp s.jobs (λ x (l, k, a). (l, (λ r. absurd (a (asked refl) (k r))), λ c. cc)) h, u, tt)
settle_job-Single now i (rendered ok renames error) s e asked h =
    finish_job-Single now i ok renames error s e h
settle_job-Single now i (crashed error) s e asked h =
    finish_job-Single now i false false (some error) s e h

pub process_job-Single :
    (now : ℕ) (outcome : Rendered) (s : Exports)
    → (outcome ≡ export_cancelled → s.cancel_current ≡ true)
    → Single s
    → Single (process_job now outcome s)
process_job-Single now outcome s asked h = process_job-by Single now outcome s h (λ i e.
    settle_job-Single now i outcome (record s { partials = i ∷ drop_id i s.partials }) e asked h)
