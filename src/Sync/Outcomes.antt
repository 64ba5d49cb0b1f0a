-- ===== src/Sync/Outcomes.antt =====
-- web/services/sync_worker.py: what a download leaves of the queue, on every outcome.
pub mod Downloading
use mathlib.Core.List.{Memᴰ}
use mathlib.Core.Path.{subst}
use viofosync.Prelude.{
  ℕ, ◌+◌, ◌-◌, ◌≡◌, refl, sym, ap, ◌∙◌, Bool, true, false, [], ◌∷◌, Option, none, some, arith, leb,
  ==_iff, if◌then◌else◌, inl, inr, Bool-cases, All_mem,
}
use viofosync.Prelude.Text.{Text}
use viofosync.Queue.Table.{update}
use viofosync.Queue.Keys.{Unique, keyed, keyed_self}
use viofosync.Queue.Row.{State, pending, done, failed, Row, Table}
use viofosync.Queue.Ops.{
  has_id, start, finish, hand_back, mark_downloading, mark_done, mark_cancelled, attempts_of,
  failure_state, mark_transient_failure,
}
use viofosync.Queue.Machine.Worker.{update-update, attempts_of-mark_downloading}
use viofosync.Deletion.{Dashcam, refresh_size, refresh_queue_size}
use viofosync.Triage.{remove_skeleton}
use viofosync.Sync.{
  Worker, disk_full, is_kind, clear_if, Fetched, fetched, download_cancelled, download_deferred,
  os_error, other_error, blocking, or_unknown, Meeting, Done, disk_full_error, answers,
  after_transfer, settle_download, download_one,
}

abbrev pub id_of : Row → ℕ
id_of r = r.id

attempts_of_row :
    (x : Row) (t : Table) → Unique id_of t → Memᴰ x t → attempts_of x.id t ≡ some x.attempts
unfolding attempts_of
attempts_of_row x [] u m = elim m [ ]
attempts_of_row x (y ∷ t) (e, u) (Memᴰ.head a) = rw (a, keyed_self id_of y) refl
attempts_of_row x (y ∷ t) (e, u) (Memᴰ.tail m) =
    let h = All_mem (λ z. keyed id_of y.id z ≡ false) t e m in
    ground (arith, attempts_of_row x t u m, ==_iff y.id x.id, ==_iff x.id y.id)

-- The download was given up without a failure of the camera's: cancelled, or still recording.
abbrev pub is_cancelled : Fetched → Bool
is_cancelled download_cancelled = true
is_cancelled download_deferred = true
is_cancelled _ = false

-- What an outcome makes of the state and the attempts of the row that was pending.
abbrev pub state_after : ℕ → Fetched → ℕ → State
state_after max_attempts (fetched true) attempts = done
state_after max_attempts (fetched false) attempts =
    if leb max_attempts (attempts + 1) then failed else pending
state_after max_attempts download_cancelled attempts = pending
state_after max_attempts download_deferred attempts = pending
state_after max_attempts (os_error true message) attempts = pending
state_after max_attempts (os_error false message) attempts =
    if leb max_attempts (attempts + 1) then failed else pending
state_after max_attempts (other_error message) attempts =
    if leb max_attempts (attempts + 1) then failed else pending

abbrev pub attempts_after : Fetched → ℕ → ℕ
attempts_after (fetched ok) attempts = attempts + 1
attempts_after download_cancelled attempts = attempts
attempts_after download_deferred attempts = attempts
attempts_after (os_error true message) attempts = attempts
attempts_after (os_error false message) attempts = attempts + 1
attempts_after (other_error message) attempts = attempts + 1

abbrev pub done_after : Fetched → Done
done_after (fetched ok) = answers ok
done_after (os_error true message) = disk_full_error
done_after _ = answers false

-- The queue after a download of a row: one update of the row, with the state and the attempts that
-- the outcome gives.
abbrev pub Downloads : ℕ → Fetched → Row → Table → Table → Type 0
Downloads max_attempts fetch x t t' =
    (f : Row → Row) × (t' ≡ update (has_id x.id) f t)
    × ((r : Row) → (f r).id ≡ r.id)
    × ((f x).state ≡ state_after max_attempts fetch x.attempts)
    × ((f x).attempts ≡ attempts_after fetch x.attempts)

module _ (max_attempts now : ℕ) (x : Row) (t : Table) (u : Unique id_of t) (m : Memᴰ x t) where
  failed_download :
      (error : Text) (fetch : Fetched)
      → state_after max_attempts fetch x.attempts
        ≡ (if leb max_attempts (x.attempts + 1) then failed else pending)
      → attempts_after fetch x.attempts ≡ x.attempts + 1
      → Downloads max_attempts fetch x t
          (mark_transient_failure x.id error max_attempts (mark_downloading now x.id t)).0
  unfolding mark_transient_failure mark_downloading failure_state
  failed_download error fetch es ea =
      let e = attempts_of-mark_downloading now x.id x.attempts t (attempts_of_row x t u m) in
      let state = failure_state (attempts_of x.id (mark_downloading now x.id t)) max_attempts in
      let g : Row → Row = λ r. record r { state = state; last_error = some error } in
      (
        (λ r. g (start now r)),
        update-update (has_id x.id) (start now) g t (λ r. refl),
        (λ r. refl),
        ap (λ o. failure_state o max_attempts) e ∙ sym es,
        sym ea,
      )

  cancelled_download :
      (fetch : Fetched)
      → state_after max_attempts fetch x.attempts ≡ pending
      → attempts_after fetch x.attempts ≡ x.attempts
      → Downloads max_attempts fetch x t (mark_cancelled x.id (mark_downloading now x.id t))
  unfolding mark_cancelled mark_downloading
  cancelled_download fetch es ea =
      let back : x.attempts + 1 - 1 ≡ x.attempts = omega arith in
      (
        (λ r. hand_back (start now r)),
        update-update (has_id x.id) (start now) hand_back t (λ r. refl),
        (λ r. refl),
        sym es,
        back ∙ sym ea,
      )

  finished_download :
      (file : Option ℕ)
      → Downloads max_attempts
          (fetched true)
          x
          t
          (mark_done now x.id (refresh_queue_size x file (mark_downloading now x.id t)).0)
  unfolding mark_done refresh_queue_size mark_downloading
  finished_download none = (
    (λ r. finish now (start now r)),
    update-update (has_id x.id) (start now) (finish now) t (λ r. refl),
    (λ r. refl),
    refl,
    refl,
  )
  finished_download (some n) =
      let sized : Row → Row = λ r. refresh_size (some n) (start now r) in
      (
        (λ r. finish now (sized r)),
        ap (update (has_id x.id) (finish now))
              (update-update (has_id x.id) (start now) (refresh_size (some n)) t (λ r. refl))
            ∙ update-update (has_id x.id) sized (finish now) t (λ r. refl),
        (λ r. refl),
        refl,
        refl,
      )
