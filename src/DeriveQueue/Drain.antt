-- ===== src/DeriveQueue/Drain.antt =====
-- The loop of derive_worker.py ends: each turn uses up an attempt of a clip or settles it.
use mathlib.Core.List.{Memᴰ}
use viofosync.Prelude.{
  ℕ, zero, suc, ◌+◌, ◌-◌, ◌≤◌, ◌≡◌, refl, true, false, not, [], ◌∷◌, Option, none, some, arith, leb,
  ==_iff, if◌then◌else◌, count, inl, inr, Bool-cases, All_mem,
}
use viofosync.Prelude.Text.{Text, codes}
use viofosync.Queue.Table.{update, mem-update}
use viofosync.Queue.Keys.{
  update-Unique, select-Unique, keyed, keyed_self, sum, sum-select, sum-update,
}
use viofosync.DeriveQueue.{
  Job, Jobs, is_pending, has_clip, next_job, claim, claim_next, run, complete, fail, attempts_of,
  mark_done, mark_transient_failure, remove_clip, Report, result, crashed, settle, process,
  turn_with, turn, drain,
}
use viofosync.DeriveQueue.Rows.{UniqueClips, IsNext, next_job-IsNext}

-- The turns that a pending row can still take: at least one, whatever its attempts.
abbrev pub chances : ℕ → Job → ℕ
chances max_attempts j = if is_pending j then 1 + (max_attempts - 1 - j.attempts) else 0

unfoldable pub work : ℕ → Jobs → ℕ
unfolding sum
work max_attempts = sum (chances max_attempts)

abbrev clip : Job → ℕ
clip j = j.clip_id

attempts_of_row :
    (x : Job) (t : Jobs) → UniqueClips t → Memᴰ x t → attempts_of x.clip_id t ≡ x.attempts
unfolding attempts_of
attempts_of_row x [] u m = elim m [ ]
attempts_of_row x (y ∷ t) (e, u) (Memᴰ.head a) = rw (a, keyed_self clip y) refl
attempts_of_row x (y ∷ t) (e, u) (Memᴰ.tail m) =
    let h = All_mem (λ z. keyed clip y.clip_id z ≡ false) t e m in
    ground (arith, attempts_of_row x t u m, ==_iff y.clip_id x.clip_id, ==_iff x.clip_id y.clip_id)

chances_failed :
    (max_attempts now : ℕ) (error : Text) (x : Job)
    → chances max_attempts (fail (x.attempts + 1) error max_attempts now x)
      ≤ max_attempts - 1 - x.attempts
chances_failed max_attempts now error x = elim (Bool-cases (leb max_attempts (x.attempts + 1))) [
  | inl e ↦ rw e (omega arith)
  | inr e ↦ rw e (ground arith)
]

module _ (max_attempts now : ℕ) (x : Job) (t : Jobs) (u : UniqueClips t) (m : Memᴰ x t)
    (busy : is_pending x ≡ false) where
  written :
      (f : Job → Job) (n : ℕ)
      → chances max_attempts (f x) ≤ n
      → work max_attempts (update (has_clip x.clip_id) f t) ≤ work max_attempts t + n
  unfolding work
  written f n h =
      let e = sum-update clip (chances max_attempts) f x t u m in
      let none_left : (chances max_attempts x ≡ 0) = rw busy refl in omega (arith, e, none_left, h)

  fail_work :
      (error : Text)
      → work max_attempts (mark_transient_failure x.clip_id error max_attempts now t).0
        ≤ work max_attempts t + (max_attempts - 1 - x.attempts)
  unfolding mark_transient_failure
  fail_work error =
      rw (attempts_of_row x t u m)
        (written _ (max_attempts - 1 - x.attempts) (chances_failed max_attempts now error x))

  done_work :
      work max_attempts (mark_done x.clip_id now t)
      ≤ work max_attempts t + (max_attempts - 1 - x.attempts)
  unfolding mark_done
  done_work = written (complete now) (max_attempts - 1 - x.attempts) (omega arith)

  -- To settle a claimed clip gives back at most the chances that it has left.
  work-process :
      (report : Option Report)
      → work max_attempts (process max_attempts now x.clip_id report t)
        ≤ work max_attempts t + (max_attempts - 1 - x.attempts)
  unfolding process settle remove_clip work
  work-process none =
      omega (arith, sum-select (chances max_attempts) (λ j. not (has_clip x.clip_id j)) t)
  work-process (some (crashed error)) = unfold work in fail_work error
  work-process (some (result true b)) =
      omega (arith, sum-select (chances max_attempts) (λ j. not (has_clip x.clip_id j)) t)
  work-process (some (result false true)) = fail_work (codes "transient")
  work-process (some (result false false)) = unfold work in done_work

module _ (max_attempts now : ℕ) (x : Job) (t : Jobs) (u : UniqueClips t) (m : Memᴰ x t)
    (asleep : is_pending x ≡ true) where
  claim_work :
      work max_attempts (update (has_clip x.clip_id) (run now) t)
        + (1 + (max_attempts - 1 - x.attempts))
      ≡ work max_attempts t
  unfolding work
  claim_work =
      let e = sum-update clip (chances max_attempts) (run now) x t u m in
      let left : (chances max_attempts x ≡ 1 + (max_attempts - 1 - x.attempts)) = rw asleep refl in
      omega (arith, e, left)

  claimed : Memᴰ (run now x) (update (has_clip x.clip_id) (run now) t)
  claimed =
      let e : (if has_clip x.clip_id x then run now x else x) ≡ run now x =
        rw (keyed_self clip x) refl in
      rw (← e) (mem-update (has_clip x.clip_id) (run now) m)

process-UniqueClips :
    (max_attempts now clip_id : ℕ) (report : Option Report) (t : Jobs)
    → UniqueClips t
    → UniqueClips (process max_attempts now clip_id report t)
unfolding process settle remove_clip mark_done mark_transient_failure
process-UniqueClips k now i none t u = select-Unique clip (λ j. not (has_clip i j)) t u
process-UniqueClips k now i (some (crashed error)) t u =
    update-Unique clip (has_clip i) _ (λ x. refl) t u
process-UniqueClips k now i (some (result true b)) t u =
    select-Unique clip (λ j. not (has_clip i j)) t u
process-UniqueClips k now i (some (result false true)) t u =
    update-Unique clip (has_clip i) _ (λ x. refl) t u
process-UniqueClips k now i (some (result false false)) t u =
    update-Unique clip (has_clip i) (complete now) (λ x. refl) t u

no_pending : (t : Jobs) → ((j : Job) → Memᴰ j t → is_pending j ≡ false) → count is_pending t ≡ 0
no_pending [] h = refl
no_pending (j ∷ t) h =
    let e = no_pending t (λ k m. h k (Memᴰ.tail m)) in rw (h j (Memᴰ.head refl)) (omega (arith, e))

count-work : (max_attempts : ℕ) (t : Jobs) → count is_pending t ≤ work max_attempts t
unfolding work sum
count-work max_attempts [] = omega arith
count-work max_attempts (j ∷ t) =
    let ih : (count is_pending t ≤ sum (chances max_attempts) t) =
      (unfold work in count-work max_attempts t) in
    ground (arith, ih)

-- A turn that goes to sleep leaves no pending row; any other lowers the work.
abbrev Progressed : ℕ → Jobs → Option Jobs → Type 0
Progressed max_attempts t none = count is_pending t ≡ 0
Progressed max_attempts t (some t') =
    (suc (work max_attempts t') ≤ work max_attempts t) × UniqueClips t'

turn_progress :
    (max_attempts now : ℕ) (derive : ℕ → Option Report) (t : Jobs)
    → UniqueClips t
    → Progressed max_attempts t (turn max_attempts now derive t)
unfolding turn claim_next claim turn_with
turn_progress max_attempts now derive t u = of_next (next_job t) (next_job-IsNext t)
  where
    of_next :
        (o : Option Job)
        → IsNext t o
        → Progressed max_attempts t (turn_with max_attempts now derive (claim now o t))
    of_next none h = no_pending t h
    of_next (some x) (m, asleep, h) =
        let t' = update (has_clip x.clip_id) (run now) t in
        let u' : UniqueClips t' =
          update-Unique clip (has_clip x.clip_id) (run now) (λ y. refl) t u in
        (
          omega (
            arith,
            claim_work max_attempts now x t u m asleep,
            work-process max_attempts now (run now x) t' u'
                (claimed max_attempts now x t u m asleep) refl (derive x.clip_id),
          ),
          process-UniqueClips max_attempts now x.clip_id (derive x.clip_id) t' u',
        )

-- Whatever each derive pass reports, also if every one fails or crashes, the worker's loop comes to
-- rest with no clip pending, after at most as many turns as the pending clips have attempts left
-- (one at least for each).
pub drain_rests :
    (fuel max_attempts : ℕ) (clock : ℕ → ℕ) (derive : ℕ → ℕ → Option Report) (t : Jobs)
    → UniqueClips t
    → work max_attempts t ≤ fuel
    → count is_pending (drain fuel max_attempts clock derive t) ≡ 0
unfolding drain
drain_rests zero max_attempts clock derive t u h = omega (arith, count-work max_attempts t, h)
drain_rests (suc fuel) max_attempts clock derive t u h =
    of_turn (turn max_attempts (clock fuel) (derive fuel) t)
      (turn_progress max_attempts (clock fuel) (derive fuel) t u)
      (drain_rests fuel max_attempts clock derive)
  where
    of_turn :
        (o : Option Jobs)
        → Progressed max_attempts t o
        → ((t' : Jobs)
            → UniqueClips t'
            → work max_attempts t' ≤ fuel
            → count is_pending (drain fuel max_attempts clock derive t') ≡ 0)
        → count is_pending (elim o [ none ↦ t | some t' ↦ drain fuel max_attempts clock derive t' ])
          ≡ 0
    of_turn none e rest = e
    of_turn (some t') (less, u') rest = rest t' u' (omega (arith, less, h))
