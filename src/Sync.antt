-- ===== src/Sync.antt =====
-- web/services/sync_worker.py: the download of one clip, the drain of the queue, and a cycle. The
-- network, the clocks and the passes of other modules are arguments.
pub mod Removal
pub mod Cycle
pub mod Ends
pub mod Outcomes
use viofosync.Prelude.{
  ℕ, zero, suc, ◌+◌, ◌-◌, ◌*◌, Bool, true, false, not, ◌&&◌, ◌||◌, List, [], ◌∷◌, Option, none,
  some, ltb, leb, min, max, if◌then◌else◌,
}
use viofosync.Prelude.Text.{Text, codes}
use viofosync.Queue.Row.{Row, Table, Scope}
use viofosync.Queue.Ops.{mark_downloading, mark_done, mark_cancelled, mark_transient_failure}
use viofosync.Queue.Pick.{next_pending}
use viofosync.Queue.Reconcile.{Recording, reconcile}
use viofosync.DeriveQueue.{Jobs, enqueue}
use viofosync.Deletion.{Dashcam, maybe_delete_from_dashcam, refresh_queue_size}
use viofosync.Triage.{World, remove_skeleton}

-- RELIST_MIN_INTERVAL_S, RELIST_COST_FACTOR, RELIST_MAX_INTERVAL_S.
abbrev pub relist_min_interval_s : ℕ
relist_min_interval_s = 30

abbrev pub relist_cost_factor : ℕ
relist_cost_factor = 10

abbrev pub relist_max_interval_s : ℕ
relist_max_interval_s = 600

unfoldable pub relist_interval : ℕ → ℕ
relist_interval cost_s =
    min (max relist_min_interval_s (relist_cost_factor * cost_s)) relist_max_interval_s

pub data ErrorKind : Type 0 where
  recordings_unwritable disk_full auth_failure : ErrorKind

abbrev pub kind_eq : ErrorKind → ErrorKind → Bool
kind_eq recordings_unwritable recordings_unwritable = true
kind_eq disk_full disk_full = true
kind_eq auth_failure auth_failure = true
kind_eq _ _ = false

-- The worker's fields and what it acts on: the two queues, the skeletons, and a camera.
pub record Worker (C : Type 0) : Type 0 where
  pub queue : Table
  pub jobs : Jobs
  pub skeletons : List Text
  pub camera : C
  pub last_error_kind : Option ErrorKind
  pub last_relist_done : Option ℕ
  pub last_relist_cost_s : ℕ

abbrev pub in_world : {C : Type 0} → (World → World) → Worker C → Worker C
in_world f s =
    let w = f (record { queue = s.queue; skeletons = s.skeletons }) in
    record s { queue = w.queue; skeletons = w.skeletons }

-- `_set_sync_error` and `_clear_sync_error`, less their events.
abbrev pub set_sync_error : {C : Type 0} → ErrorKind → Worker C → Worker C
set_sync_error kind s = record s { last_error_kind = some kind }

abbrev pub is_kind : ErrorKind → Option ErrorKind → Bool
is_kind kind none = false
is_kind kind (some k) = kind_eq k kind

abbrev pub clear_if : {C : Type 0} → ErrorKind → Worker C → Worker C
clear_if kind s = if is_kind kind s.last_error_kind then record s { last_error_kind = none } else s

-- What `download_file_with` returns, or raises.
pub data Fetched : Type 0 where
  fetched : (ok : Bool) → Fetched
  download_cancelled download_deferred : Fetched
  os_error : (no_space : Bool) → (message : Text) → Fetched
  other_error : (message : Text) → Fetched

pub record Transfer : Type 0 where
  pub ok : Bool
  pub err : Option Text
  pub cancelled : Bool
  pub is_disk_full : Bool

-- What `_blocking` makes of it.
unfoldable pub blocking : Fetched → Transfer
blocking (fetched ok) = record { ok = ok; err = none; cancelled = false; is_disk_full = false }
blocking download_cancelled = record {
  ok = false;
  err = none;
  cancelled = true;
  is_disk_full = false;
}
blocking download_deferred = record {
  ok = false;
  err = none;
  cancelled = true;
  is_disk_full = false;
}
blocking (os_error no_space message) = record {
  ok = false;
  err = some message;
  cancelled = false;
  is_disk_full = no_space;
}
blocking (other_error message) = record {
  ok = false;
  err = some message;
  cancelled = false;
  is_disk_full = false;
}

-- `err or "unknown"`
abbrev pub or_unknown : Option Text → Text
or_unknown none = codes "unknown"
or_unknown (some []) = codes "unknown"
or_unknown (some (c ∷ message)) = c ∷ message

-- `_dq.enqueue` at live priority, for a clip that was indexed.
abbrev pub enqueue_if : Option ℕ → ℕ → Jobs → Jobs
enqueue_if none now jobs = jobs
enqueue_if (some clip_id) now jobs = enqueue clip_id 0 now jobs

-- What a download meets: the clock, the transfer, the size of the file on the disk, and the id that
-- `index_one_clip` returns.
pub record Meeting : Type 0 where
  pub now : ℕ
  pub fetch : Fetched
  pub file : Option ℕ
  pub clip_id : Option ℕ

-- `_download_one` raises DiskFullError, or returns.
pub data Done : Type 0 where
  disk_full_error : Done
  answers : Bool → Done

module _ {C : Type 0} (cam : Dashcam C) (base_url : Text) (delete_after_download : Bool)
    (max_attempts : ℕ) where
  -- On the executor's thread, after a transfer that succeeded.
  unfoldable pub after_transfer : Row → Option ℕ → Worker C → Worker C
  unfolding refresh_queue_size remove_skeleton maybe_delete_from_dashcam
  after_transfer item file s =
      let (queue, item') = refresh_queue_size item file s.queue in
      let s' = in_world (remove_skeleton item.filename) (record s { queue = queue }) in
      let (events, camera) =
        maybe_delete_from_dashcam cam base_url item' delete_after_download file s'.camera in
      record s' { camera = camera }

  unfoldable pub settle_download : Row → Meeting → Transfer → Worker C → Done × Worker C
  unfolding mark_cancelled mark_done mark_transient_failure enqueue
  settle_download item m r s =
      if r.is_disk_full
      then (
        disk_full_error,
        set_sync_error disk_full (record s { queue = mark_cancelled item.id s.queue }),
      )
      else if r.cancelled
      then (answers false, record s { queue = mark_cancelled item.id s.queue })
      else if r.ok
      then (
        answers true,
        let s' = clear_if disk_full s in
            record s' {
              queue = mark_done m.now item.id s'.queue;
              jobs = enqueue_if m.clip_id m.now s'.jobs;
            },
      )
      else (
        answers false,
        record s {
          queue = (mark_transient_failure item.id (or_unknown r.err) max_attempts s.queue).0;
        },
      )

  -- `_download_one`
  unfoldable pub download_one : Row → Meeting → Worker C → Done × Worker C
  unfolding mark_downloading blocking after_transfer settle_download
  download_one item m s =
      let started = record s { queue = mark_downloading m.now item.id s.queue } in
      let r = blocking m.fetch in
      settle_download item m r (if r.ok then after_transfer item m.file started else started)
