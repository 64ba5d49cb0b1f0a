-- ===== src/Sync/Cycle.antt =====
-- web/services/sync_worker.py: the drain loop and the cycle around it.
use viofosync.Prelude.{
  ℕ, ◌+◌, ◌-◌, Bool, true, false, not, ◌&&◌, ◌||◌, List, [], ◌∷◌, Option, none, some, ltb, leb, min,
  length, if◌then◌else◌, get_elem?,
}
use viofosync.Prelude.Text.{Text}
use viofosync.Queue.Row.{Row, Table, Scope}
use viofosync.Queue.Pick.{next_pending, run_recording_status_release}
use viofosync.Queue.Reconcile.{Recording, reconcile}
use viofosync.Deletion.{Dashcam}
use viofosync.Triage.{World, has_pending_targets}
use viofosync.Sync.{
  Worker, relist_interval, recordings_unwritable, auth_failure, set_sync_error, clear_if, Meeting,
  Done, disk_full_error, answers, download_one,
}

-- A fetch of the listing with the walk of the archive, or how it fails: refused is HTTP 401 or 403.
pub data Listing : Type 0 where
  listed : List Recording → (present : List Text) → Listing
  refused unlisted : Listing

abbrev stamp : {C : Type 0} → ℕ → ℕ → Worker C → Worker C
stamp done cost_s s = record s { last_relist_done = some done; last_relist_cost_s = cost_s }

-- `_refresh_listing_and_reconcile`, at its end on the monotonic clock.
unfoldable pub refresh_listing :
    {C : Type 0} → (now done cost_s : ℕ) → Listing → Worker C → Bool × Worker C
unfolding reconcile
refresh_listing now done cost_s (listed recordings present) s =
    let reconciled = record s { queue = (reconcile now recordings present s.queue).0 } in
    (true, clear_if auth_failure (stamp done cost_s reconciled))
refresh_listing now done cost_s refused s =
    (false, set_sync_error auth_failure (stamp done cost_s s))
refresh_listing now done cost_s unlisted s = (false, stamp done cost_s s)

-- `_relist_due`
unfoldable pub relist_due : {C : Type 0} → ℕ → Worker C → Bool
unfolding relist_interval
relist_due clock s = elim s.last_relist_done [
  | none ↦ true
  | some done ↦ leb (done + relist_interval s.last_relist_cost_s) clock
]

-- What one turn of the drain loop meets: the flags, the connection's profile, the probe, the
-- download, and the listing that is fetched when one is due.
pub record Lap : Type 0 where
  pub stop : Bool
  pub paused : Bool
  pub scope : Scope
  pub triage_gate : Bool
  pub reachable : Bool
  pub meeting : Meeting
  pub clock : ℕ
  pub listing : Listing
  pub cost_s : ℕ

pub data Exit : Type 0 where
  ended offline disk_is_full out_of_laps : Exit

abbrev pub next_item : {C : Type 0} → Lap → Worker C → Option Row
next_item u s = if u.stop || u.paused then none else next_pending u.scope u.triage_gate true s.queue

-- After a download that succeeded, the listing is refreshed when that is due.
unfoldable pub relist : {C : Type 0} → Lap → Worker C → Worker C
unfolding relist_due refresh_listing
relist u s =
    if relist_due u.clock s
    then (refresh_listing u.meeting.now (u.clock + u.cost_s) u.cost_s u.listing s).1
    else s

module _ {C : Type 0} (cam : Dashcam C) (base_url : Text) (delete_after_download : Bool)
    (max_attempts : ℕ) where
  abbrev pub after_lap :
      Lap → Bool → Done × Worker C → (Worker C → Exit × Bool × Worker C) → Exit × Bool × Worker C
  after_lap u did_any (disk_full_error, s) go_on = (disk_is_full, did_any, s)
  after_lap u did_any (answers true, s) go_on = go_on (relist u s)
  after_lap u did_any (answers false, s) go_on = go_on s

  unfoldable pub lap :
      Lap
      → Bool
      → Option Row
      → Worker C
      → (Worker C → Exit × Bool × Worker C)
      → Exit × Bool × Worker C
  unfolding download_one relist
  lap u did_any none s go_on = (ended, did_any, s)
  lap u did_any (some item) s go_on = elim (did_any && not u.reachable) [
    | true ↦ (offline, did_any, s)
    | false ↦
        after_lap u did_any
          (download_one cam base_url delete_after_download max_attempts item u.meeting s) go_on
  ]

  -- The drain loop, with whether it has downloaded anything.
  unfoldable pub drain_from : Bool → List Lap → Worker C → Exit × Bool × Worker C
  unfolding next_pending lap
  drain_from did_any [] s = (out_of_laps, did_any, s)
  drain_from did_any (u ∷ laps) s = lap u did_any (next_item u s) s (λ s'. drain_from true laps s')

-- An address that is set, and whether a probe reaches it.
pub record Address : Type 0 where
  pub is_set : Bool
  pub answers_probe : Bool

pub data Source : Type 0 where
  primary alternative : Source

unfoldable pub select_active_address : Address → Address → Option Source
select_active_address first second =
    if first.is_set && first.answers_probe
    then some primary
    else if second.is_set && second.answers_probe
    then some alternative
    else none

-- `_check_recordings_writable`, for what the probe of the folder says.
unfoldable pub check_recordings_writable : {C : Type 0} → Bool → Worker C → Bool × Worker C
check_recordings_writable false s = (false, set_sync_error recordings_unwritable s)
check_recordings_writable true s = (true, clear_if recordings_unwritable s)

-- What a cycle meets.
pub record Round (C : Type 0) : Type 0 where
  pub paused : Bool
  pub writable : Bool
  pub first : Address
  pub second : Address
  pub now : ℕ
  pub clock : ℕ
  pub cost_s : ℕ
  pub listing : Listing
  pub record_state : Option ℕ
  pub triage : Bool
  pub triage_pass : World → ℕ × World
  pub geofence_pass : Table → Table
  pub later : ℕ
  pub laps : List Lap
  pub tidy : Worker C → Worker C

abbrev pub triaged : {C : Type 0} → Round C → Worker C → ℕ × Worker C
triaged round s =
    if round.triage
    then (let (n, w) = round.triage_pass (record { queue = s.queue; skeletons = s.skeletons }) in
        (n, record s { queue = w.queue; skeletons = w.skeletons }))
    else (0, s)

-- From the listing on: release, triage, geofence.
unfoldable pub prepare : {C : Type 0} → Round C → Worker C → ℕ × Worker C
unfolding run_recording_status_release
prepare round s =
    let released = record s {
      queue = (run_recording_status_release round.record_state s.queue).0;
    } in
    let (n, s') = triaged round released in (n, record s' { queue = round.geofence_pass s'.queue })

module _ {C : Type 0} (cam : Dashcam C) (base_url : Text) (delete_after_download : Bool)
    (max_attempts : ℕ) where
  -- The scan and the retention sweep after a drain that has downloaded something.
  abbrev pub after_drain : Round C → Exit × Bool × Worker C → Bool × Worker C
  after_drain round (ended, true, s) = (true, round.tidy s)
  after_drain round (ended, false, s) = (false, s)
  after_drain round (offline, did_any, s) = (true, s)
  after_drain round (disk_is_full, did_any, s) = (did_any, s)
  after_drain round (out_of_laps, did_any, s) = (did_any, s)

  abbrev pub hold_or_drain : Round C → ℕ × Worker C → Bool × Worker C
  unfolding has_pending_targets drain_from
  hold_or_drain round (n, s) =
      if round.triage && has_pending_targets round.later s.queue
      then (ltb 0 n, s)
      else after_drain round
          (drain_from cam base_url delete_after_download max_attempts false round.laps s)

  abbrev pub listed_or_not : Round C → Bool × Worker C → Bool × Worker C
  unfolding prepare
  listed_or_not round (false, s) = (false, s)
  listed_or_not round (true, s) = hold_or_drain round (prepare round s)

  abbrev pub connected : Round C → Option Source → Worker C → Bool × Worker C
  unfolding refresh_listing
  connected round none s = (false, s)
  connected round (some source) s =
      listed_or_not round (refresh_listing round.now round.clock round.cost_s round.listing s)

  abbrev pub when_writable : Round C → Bool × Worker C → Bool × Worker C
  unfolding select_active_address
  when_writable round (false, s) = (false, s)
  when_writable round (true, s) = connected round (select_active_address round.first round.second) s

  -- `_cycle`
  unfoldable pub cycle : Round C → Worker C → Bool × Worker C
  unfolding when_writable check_recordings_writable
  cycle round s =
      if round.paused
      then (false, s)
      else when_writable round (check_recordings_writable round.writable s)

-- BACKOFF_STEPS, and the wait of `_run` after a cycle with the index of the next.
abbrev pub backoff_steps : List ℕ
backoff_steps = 10 ∷ 30 ∷ 120 ∷ 600 ∷ []

unfoldable pub wait_after : Bool → ℕ → Option ℕ × ℕ
wait_after true backoff_idx = (some 1, 0)
wait_after false backoff_idx = (
  get_elem? backoff_steps (min backoff_idx (length backoff_steps - 1)),
  min (backoff_idx + 1) (length backoff_steps - 1),
)
