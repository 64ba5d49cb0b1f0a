-- ===== src/Sync/Outcomes/Downloading.antt =====
-- web/services/sync_worker.py: `_download_one` on every outcome of the network.
use mathlib.Core.List.{Memᴰ}
use mathlib.Core.Path.{subst}
use viofosync.Prelude.{
  ℕ, ◌+◌, ◌≡◌, refl, sym, ◌∙◌, Bool, true, false, Option, none, some, leb, if◌then◌else◌, inl, inr,
  Bool-cases,
}
use viofosync.Prelude.Text.{Text}
use viofosync.Queue.Keys.{Unique}
use viofosync.Queue.Row.{pending, failed, Row}
use viofosync.Queue.Ops.{mark_downloading, mark_done, mark_cancelled, mark_transient_failure}
use viofosync.Deletion.{Dashcam, refresh_queue_size}
use viofosync.Triage.{remove_skeleton}
use viofosync.Sync.{
  Worker, disk_full, is_kind, clear_if, Fetched, fetched, download_cancelled, download_deferred,
  os_error, other_error, blocking, or_unknown, Meeting, after_transfer, settle_download,
  download_one,
}
use viofosync.Sync.Outcomes.{
  id_of, state_after, attempts_after, done_after, Downloads, failed_download, cancelled_download,
  finished_download,
}

module _ {C : Type 0} (cam : Dashcam C) (base_url : Text) (delete_after_download : Bool)
    (max_attempts : ℕ) where
  clear_if_queue : (s : Worker C) → (clear_if disk_full s).queue ≡ s.queue
  clear_if_queue s = elim (Bool-cases (is_kind disk_full s.last_error_kind)) [
    | inl e ↦ rw e refl
    | inr e ↦ rw e refl
  ]

  after_transfer_queue :
      (x : Row) (file : Option ℕ) (s : Worker C)
      → (after_transfer cam base_url delete_after_download max_attempts x file s).queue
        ≡ (refresh_queue_size x file s.queue).0
  unfolding after_transfer
  after_transfer_queue x file s = unfold remove_skeleton in refl

  -- What a download does to the queue and what it returns, on every outcome. Only the clip's row
  -- changes, and it is not left `downloading`: it is done after a transfer that succeeded; it is
  -- pending with the attempts it had when the download was cancelled, put off or ran out of disk;
  -- and after any other failure it has one attempt more, and is failed exactly when that was the
  -- last. The worker learns of the full disk by DiskFullError.
  pub download_one-Downloads :
      (x : Row) (m : Meeting) (s : Worker C)
      → Unique id_of s.queue
      → Memᴰ x s.queue
      → let (returns, s') = download_one cam base_url delete_after_download max_attempts x m s in
        (returns ≡ done_after m.fetch) × Downloads max_attempts m.fetch x s.queue s'.queue
  unfolding download_one blocking settle_download after_transfer
  download_one-Downloads x m s u mem = by_fetch m.fetch
    where
      failing :
          (error : Text) (fetch : Fetched)
          → state_after max_attempts fetch x.attempts
            ≡ (if leb max_attempts (x.attempts + 1) then failed else pending)
          → attempts_after fetch x.attempts ≡ x.attempts + 1
          → Downloads max_attempts fetch x s.queue
              (mark_transient_failure x.id error max_attempts
                (mark_downloading m.now x.id s.queue)).0
      failing = failed_download max_attempts m.now x s.queue u mem

      cancelling :
          (fetch : Fetched)
          → state_after max_attempts fetch x.attempts ≡ pending
          → attempts_after fetch x.attempts ≡ x.attempts
          → Downloads max_attempts fetch x s.queue
              (mark_cancelled x.id (mark_downloading m.now x.id s.queue))
      cancelling = cancelled_download max_attempts m.now x s.queue u mem

      started : Worker C
      started = record s { queue = mark_downloading m.now x.id s.queue }

      by_fetch :
          (fetch : Fetched)
          → let (returns, s') =
              download_one cam base_url delete_after_download max_attempts x
                (record m { fetch = fetch })
                s in
            (returns ≡ done_after fetch) × Downloads max_attempts fetch x s.queue s'.queue
      by_fetch (fetched true) = (
        refl,
        subst (λ q. Downloads max_attempts (fetched true) x s.queue (mark_done m.now x.id q))
            (sym (
              clear_if_queue
                (after_transfer cam base_url delete_after_download max_attempts x m.file started)
              ∙ after_transfer_queue x m.file started))
            (finished_download max_attempts m.now x s.queue u mem m.file),
      )
      by_fetch (fetched false) = (refl, failing (or_unknown none) (fetched false) refl refl)
      by_fetch download_cancelled = (refl, cancelling download_cancelled refl refl)
      by_fetch download_deferred = (refl, cancelling download_deferred refl refl)
      by_fetch (os_error true message) = (refl, cancelling (os_error true message) refl refl)
      by_fetch (os_error false message) =
          (refl, failing (or_unknown (some message)) (os_error false message) refl refl)
      by_fetch (other_error message) =
          (refl, failing (or_unknown (some message)) (other_error message) refl refl)
