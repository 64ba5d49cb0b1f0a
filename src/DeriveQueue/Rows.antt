-- ===== src/DeriveQueue/Rows.antt =====
-- What the statements of derive_queue.py do to the rows.
use mathlib.Core.List.{Memᴰ}
use viofosync.Prelude.{
  ℕ, ◌≡◌, refl, true, false, not, List, [], ◌∷◌, Option, none, some, arith, ==_iff, select, any,
  inl, inr, Bool-cases,
}
use viofosync.Prelude.Text.{Text}
use viofosync.Queue.Table.{IsFirst, first_by-IsFirst, mem_of_mem-select, mem-select}
use viofosync.Queue.Keys.{Unique, update-Unique, select-Unique, append-Unique}
use viofosync.DeriveQueue.{
  Job, Jobs, is_pending, is_running, has_clip, new_job, restart, reactivate, upsert, enqueue,
  sooner, next_job, claim, claim_next, run, complete, put_back, mark_done, mark_transient_failure,
  reconcile_orphans, remove_clip, upsert_all, is_missing, enqueue_missing,
}

abbrev pub UniqueClips : Jobs → Type 0
UniqueClips = Unique (λ (j : Job). j.clip_id)

-- The calls that change `derive_queue`.
pub data Call : Type 0 where
  enqueue_clip : (clip_id priority : ℕ) → Call
  claim_a_clip : Call
  finish_clip : (clip_id : ℕ) → Call
  fail_clip : (clip_id : ℕ) → Text → (max_attempts : ℕ) → Call
  recover : Call
  forget_clip : (clip_id : ℕ) → Call
  scan : (ids : List ℕ) → (priority : ℕ) → Call

unfoldable pub perform : ℕ → Call → Jobs → Jobs
perform now (enqueue_clip clip_id priority) t = enqueue clip_id priority now t
perform now claim_a_clip t = (claim_next now t).0
perform now (finish_clip clip_id) t = mark_done clip_id now t
perform now (fail_clip clip_id error max_attempts) t =
    (mark_transient_failure clip_id error max_attempts now t).0
perform now recover t = (reconcile_orphans now t).0
perform now (forget_clip clip_id) t = remove_clip clip_id t
perform now (scan ids priority) t = (enqueue_missing ids priority now t).0

upsert-UniqueClips :
    (f : Job → Job) (j : Job) (t : Jobs)
    → ((x : Job) → (f x).clip_id ≡ x.clip_id)
    → UniqueClips t
    → UniqueClips (upsert f j t)
unfolding upsert
upsert-UniqueClips f j t h u = elim (Bool-cases (any (has_clip j.clip_id) t)) [
  | inl known ↦ rw known (update-Unique (λ x. x.clip_id) (has_clip j.clip_id) f h t u)
  | inr fresh ↦ rw fresh (append-Unique (λ x. x.clip_id) j t fresh u)
]

restart_key : (priority now : ℕ) (j : Job) → (restart priority now j).clip_id ≡ j.clip_id
unfolding restart
restart_key priority now j = refl

reactivate_key : (priority now : ℕ) (j : Job) → (reactivate priority now j).clip_id ≡ j.clip_id
unfolding reactivate restart
reactivate_key priority now j = ground arith

upsert_all-UniqueClips :
    (priority now : ℕ) (ids : List ℕ) (t : Jobs)
    → UniqueClips t
    → UniqueClips (upsert_all priority now ids t)
unfolding upsert_all
upsert_all-UniqueClips priority now [] t u = u
upsert_all-UniqueClips priority now (i ∷ ids) t u = upsert_all-UniqueClips priority now ids _ (
    upsert-UniqueClips (restart priority now) (new_job i priority now) t (restart_key priority now)
      u)

claim-UniqueClips :
    (now : ℕ) (o : Option Job) (t : Jobs) → UniqueClips t → UniqueClips (claim now o t).0
unfolding claim
claim-UniqueClips now none t u = u
claim-UniqueClips now (some j) t u =
    update-Unique (λ x. x.clip_id) (has_clip j.clip_id) (run now) (λ x. refl) t u

-- Every call keeps at most one row for a clip.
pub perform-UniqueClips :
    (now : ℕ) (c : Call) (t : Jobs) → UniqueClips t → UniqueClips (perform now c t)
unfolding perform enqueue claim_next mark_done mark_transient_failure reconcile_orphans remove_clip
    enqueue_missing
perform-UniqueClips now (enqueue_clip i priority) t u =
    upsert-UniqueClips (reactivate priority now) (new_job i priority now) t
      (reactivate_key priority now) u
perform-UniqueClips now claim_a_clip t u = claim-UniqueClips now (next_job t) t u
perform-UniqueClips now (finish_clip i) t u =
    update-Unique (λ x. x.clip_id) (has_clip i) (complete now) (λ x. refl) t u
perform-UniqueClips now (fail_clip i error max_attempts) t u =
    update-Unique (λ x. x.clip_id) (has_clip i) _ (λ x. refl) t u
perform-UniqueClips now recover t u =
    update-Unique (λ x. x.clip_id) is_running (put_back now) (λ x. refl) t u
perform-UniqueClips now (forget_clip i) t u =
    select-Unique (λ x. x.clip_id) (λ j. not (has_clip i j)) t u
perform-UniqueClips now (scan ids priority) t u =
    upsert_all-UniqueClips priority now (select (is_missing t) ids) t u

sooner_asym : (a b : Job) → sooner a b ≡ true → sooner b a ≡ false
unfolding sooner
sooner_asym a b h = ground (arith, ==_iff a.priority b.priority, ==_iff b.priority a.priority)

sooner_not_trans : (a b c : Job) → sooner a b ≡ false → sooner b c ≡ false → sooner a c ≡ false
unfolding sooner
sooner_not_trans a b c h k = ground arith

-- The row that a claim takes among the pending ones.
abbrev pub IsNext : Jobs → Option Job → Type 0
IsNext t none = (j : Job) → Memᴰ j t → is_pending j ≡ false
IsNext t (some s) =
    Memᴰ s t
    × (is_pending s ≡ true)
    × ((j : Job) → Memᴰ j t → is_pending j ≡ true → sooner j s ≡ false)

-- The clip that a claim takes is pending, and no pending clip has a lower priority number, or the
-- same and a larger id; there is none exactly when no clip is pending.
pub next_job-IsNext : (t : Jobs) → IsNext t (next_job t)
unfolding next_job
next_job-IsNext t =
    of_first _ (first_by-IsFirst sooner sooner_asym sooner_not_trans (select is_pending t))
  where
    of_first :
        (o : Option Job)
        → IsFirst sooner sooner_asym sooner_not_trans (select is_pending t) o
        → IsNext t o
    of_first none h = λ j m. elim (Bool-cases (is_pending j)) [
      | inl e ↦ absurd (h j (mem-select is_pending t m e))
      | inr e ↦ e
    ]
    of_first (some s) (m, h) =
        let (mt, e) = mem_of_mem-select is_pending t m in
        (mt, e, λ j mj ej. h j (mem-select is_pending t mj ej))
