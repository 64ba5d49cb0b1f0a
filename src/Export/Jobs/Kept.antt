-- ===== src/Export/Jobs/Kept.antt =====
-- web/services/exporter.py: the file of a finished job stays for as long as its row.
pub mod Reaches
use mathlib.Core.List.{Memᴰ}
use mathlib.Core.Path.{subst}
use mathlib.Core.Option.{some-injective}
use viofosync.Prelude.{
  ℕ, ◌≡◌, refl, sym, ap, Bool, true, false, not, ◌&&◌, List, [], ◌∷◌, ◌++◌, Option, none, some,
  arith, ◌==◌, ==_iff, ==_refl, ltb, if◌then◌else◌, is_some, select, any, any_of_mem, all, All,
  All_mem, inl, inr, Bool-cases,
}
use viofosync.Prelude.Text.{Text, codes}
use viofosync.Queue.Table.{update, first_by}
use viofosync.Export.{Segment, Indexed}
use viofosync.Export.Jobs.{
  ExportState, queued, running, paused, done, ExportJob, is_in, is_rendering, has_job, Exports,
  is_current, drop_id, enqueue_clips, enqueue_timeline, timeline_job, created_before, begin_job,
  pop_job, pop_next, set_state, pause, resume, cancel, discard_partial, remove_job, delete_job,
  names_file,
}
use viofosync.Export.Jobs.Finish.{
  finish_row, finish_job, Rendered, export_cancelled, rendered, crashed, settle_job, no_job,
  process_job,
}
use viofosync.Export.Jobs.Restart.{
  interrupt, reconcile_orphan_jobs, owns_output, sweep_orphan_exports, restart_exports,
}
use viofosync.Export.Jobs.Rowwise.{Owned}
use viofosync.Export.Jobs.Steps.{
  process_job-by, by_test, Step, enqueues, enqueues_timeline, pops, pauses, resumes, deletes,
  renders, restarts, Reachable, at_first, and_then,
}

-- A finished job's row names the file of its id, which is there.
abbrev Kept : List ℕ → ExportJob → Type 0
Kept finals j =
    is_in done j ≡ true → (j.output_path ≡ some j.id) × (any (λ k. k == j.id) finals ≡ true)

abbrev AllKept : Exports → Type 0
AllKept s = All (Kept s.finals) s.jobs

-- Rows where another statement than that of a finished job was written.
update-Kept :
    (finals finals' : List ℕ) (p : ExportJob → Bool) (f : ExportJob → ExportJob)
    (t : List ExportJob)
    → ((x : ExportJob) → p x ≡ true → Kept finals' (f x))
    → ((x : ExportJob) → p x ≡ false → Kept finals x → Kept finals' x)
    → All (Kept finals) t
    → All (Kept finals') (update p f t)
unfolding update
update-Kept finals finals' p f [] step same h = tt
update-Kept finals finals' p f (x ∷ t) step same (h, hs) =
    (by_case (p x) refl, update-Kept finals finals' p f t step same hs)
  where
    by_case : (b : Bool) → p x ≡ b → Kept finals' (if b then f x else x)
    by_case true e = step x e
    by_case false e = same x e h

append-Kept :
    (finals : List ℕ) (j : ExportJob) (t : List ExportJob)
    → is_in done j ≡ false
    → All (Kept finals) t
    → All (Kept finals) (t ++ j ∷ [])
append-Kept finals j [] e h = ((λ d. cc), tt)
append-Kept finals j (x ∷ t) e (h, hs) = (h, append-Kept finals j t e hs)

any-select :
    (p : ℕ → Bool) (a : ℕ) (l : List ℕ)
    → any (λ k. k == a) l ≡ true
    → p a ≡ true
    → any (λ k. k == a) (select p l) ≡ true
any-select p a [] e h = e
any-select p a (k ∷ l) e h = elim (Bool-cases (k == a)) [
  | inl same ↦ let here : p k ≡ true = rw ((==_iff k a).0 same) h in rw (here, same) refl
  | inr other ↦
      let later = any-select p a l (rw other at e) h in
      elim (Bool-cases (p k)) [ inl y ↦ rw (y, other) later | inr n ↦ rw n later ]
]

drop_id-others :
    (i a : ℕ) (l : List ℕ)
    → (a == i) ≡ false
    → any (λ k. k == a) l ≡ true
    → any (λ k. k == a) (drop_id i l) ≡ true
drop_id-others i a l o e = any-select (λ k. not (k == i)) a l e (rw o refl)

-- The worker's statements and its end.
pop_job-Kept :
    (now : ℕ) (o : Option ExportJob) (s : Exports) → AllKept s → AllKept (pop_job now o s)
pop_job-Kept now none s h = h
pop_job-Kept now (some j) s h =
    update-Kept s.finals s.finals (has_job j.id) (begin_job now) s.jobs (λ x e d. cc) (λ x e k. k) h

set_state-Kept :
    (i : ℕ) (state : ExportState) (b : Bool) (s : Exports)
    → ((j : ExportJob) → is_in done (record j { state = state }) ≡ false)
    → AllKept s
    → AllKept (set_state i state (record s { is_paused = b }))
set_state-Kept i state b s other h =
    update-Kept s.finals s.finals (has_job i) (λ j. record j { state = state }) s.jobs
      (λ x e d. absurd (let n = other x in cc)) (λ x e k. k) h

finish_job-Kept :
    (now i : ℕ) (ok renames : Bool) (error : Option Text) (s : Exports)
    → AllKept s
    → AllKept (finish_job now i ok renames error s)
unfolding finish_job discard_partial
finish_job-Kept now i true true error s h =
    update-Kept s.finals (i ∷ drop_id i s.finals) (has_job i) (finish_row now true error (some i))
      s.jobs
      (λ x e d. let same = (==_iff x.id i).0 e in (ap some (sym same), rw (same, ==_refl i) refl))
      (λ x e k d.
        let (o, m) = k d in (o, let later = drop_id-others i x.id s.finals e m in ground arith))
      h
finish_job-Kept now i true false error s h =
    update-Kept s.finals s.finals (has_job i)
      (finish_row now false
        (elim error [ none ↦ some (codes "could not finalise output") | some m ↦ some m ]) none)
      s.jobs (λ x e d. cc) (λ x e k. k) h
finish_job-Kept now i false renames error s h =
    update-Kept s.finals s.finals (has_job i) (finish_row now false error none) s.jobs (λ x e d. cc)
      (λ x e k. k) h

settle_job-Kept :
    (now i : ℕ) (outcome : Rendered) (s : Exports)
    → AllKept s
    → AllKept (settle_job now i outcome s)
unfolding discard_partial settle_job
settle_job-Kept now i export_cancelled s h = h
settle_job-Kept now i (rendered ok renames error) s h = finish_job-Kept now i ok renames error s h
settle_job-Kept now i (crashed error) s h = finish_job-Kept now i false false (some error) s h

process_job-Kept :
    (now : ℕ) (outcome : Rendered) (s : Exports) → AllKept s → AllKept (process_job now outcome s)
process_job-Kept now outcome s h =
    process_job-by AllKept now outcome s h
      (λ i e. settle_job-Kept now i outcome (record s { partials = i ∷ drop_id i s.partials }) h)

-- No row of the deleted job names another job's file.
other_file :
    (i a : ℕ) (t : List ExportJob)
    → (a == i) ≡ false
    → All Owned t
    → any (λ j. has_job i j && names_file a j) t ≡ false
other_file i a [] o h = refl
other_file i a (x ∷ t) o (inl e, hs) = let ih = other_file i a t o hs in rw e (ground (arith, ih))
other_file i a (x ∷ t) o (inr e, hs) =
    let ih = other_file i a t o hs in rw e (ground (arith, ih, ==_iff x.id i, ==_iff x.id a))

-- The other rows do not lose their file with the deleted one.
left-Kept :
    (i : ℕ) (keep : ℕ → Bool) (finals : List ℕ) (t : List ExportJob)
    → ((a : ℕ) → (a == i) ≡ false → keep a ≡ true)
    → All (Kept finals) t
    → All (Kept (select keep finals)) (select (λ j. not (has_job i j)) t)
left-Kept i keep finals [] k h = tt
left-Kept i keep finals (x ∷ t) k (h, hs) = elim (Bool-cases (x.id == i)) [
  | inl e ↦ rw e (left-Kept i keep finals t k hs)
  | inr e ↦ rw e (still e, left-Kept i keep finals t k hs)
]
  where
    still : (x.id == i) ≡ false → Kept (select keep finals) x
    still e d = let (o, m) = h d in (o, any-select keep x.id finals m (k x.id e))

delete_job-Kept : (i : ℕ) (s : Exports) → All Owned s.jobs → AllKept s → AllKept (delete_job i s).1
unfolding delete_job cancel
delete_job-Kept i s own h =
    remove (cancel i s).1
      (by_test (λ u. All Owned u.jobs) (is_current i s)
        (true, record s { cancel_current = true; is_paused = false }) (false, s) (λ e. own)
        (λ e. own))
      (by_test AllKept (is_current i s)
        (true, record s { cancel_current = true; is_paused = false }) (false, s) (λ e. h) (λ e. h))
  where
    remove : (s : Exports) → All Owned s.jobs → AllKept s → AllKept (remove_job i s).1
    remove s own h = elim (Bool-cases (any (has_job i) s.jobs)) [
      | inl e ↦ rw e (
          left-Kept i (λ k. not (any (λ j. has_job i j && names_file k j) s.jobs)) s.finals s.jobs
            (λ a o. let none_named = other_file i a s.jobs o own in ground arith) h)
      | inr e ↦ rw e h
    ]

All-self :
    (P : ExportJob → Type 0) (t : List ExportJob) → ((x : ExportJob) → Memᴰ x t → P x) → All P t
All-self P [] f = tt
All-self P (x ∷ t) f = (f x (Memᴰ.head refl), All-self P t (λ y m. f y (Memᴰ.tail m)))

-- The sweep of a start-up leaves the files of the finished jobs.
sweep-Kept :
    (finals : List ℕ) (t : List ExportJob)
    → All (Kept finals) t
    → All (Kept (select (owns_output t) finals)) t
sweep-Kept finals t h = All-self (Kept (select (owns_output t) finals)) t (λ x m d.
    let (o, f) = All_mem (Kept finals) t h m d in
    let owned : owns_output t x.id ≡ true =
      any_of_mem (λ j. is_in done j && (elim j.output_path [ none ↦ false | some k ↦ k == x.id ])) t
        m (rw (d, o, ==_refl x.id) refl) in
    (o, any-select (owns_output t) x.id finals f owned))

restart-Kept : (now : ℕ) (s : Exports) → AllKept s → AllKept (restart_exports now s)
unfolding restart_exports reconcile_orphan_jobs sweep_orphan_exports
restart-Kept now s h =
    sweep-Kept s.finals (update is_rendering (interrupt now) s.jobs) (
      update-Kept s.finals s.finals is_rendering (interrupt now) s.jobs (λ x e d. cc) (λ x e k. k)
        h)
