-- ===== src/Queue/Ops.antt =====
-- The statements of web/services/queue.py that change rows. Each returns the new table, and its
-- `rowcount` where the code returns it. `now` is `int(time.time())`.
use viofosync.Prelude.{
  ℕ, ◌+◌, ◌-◌, ◌*◌, Bool, false, ◌&&◌, ◌||◌, List, [], ◌∷◌, Option, none, some, leb, ◌==◌,
  if◌then◌else◌, is_none, count,
}
use viofosync.Prelude.Int.{ℤ, pos, ◌+ℤ◌, ◌-ℤ◌, max_ℤ, min_ℤ}
use viofosync.Prelude.Text.{Text}
use viofosync.Queue.Table.{update}
use viofosync.Queue.Row.{
  State, pending, downloading, done, failed, skipped, user, geofence, Row, Table, is_state,
  is_geofence, named,
}

-- `c.execute(…).rowcount`, with the table after it.
unfoldable pub execute : (Row → Bool) → (Row → Row) → Table → Table × ℕ
unfolding update
execute p f t = (update p f t, count p t)

-- `if not filenames: return 0`
abbrev pub unless_empty {ℓ} : {A : Type ℓ} → List Text → A → A → A
unless_empty [] early run = early
unless_empty (n ∷ names) early run = run

abbrev pub has_id : ℕ → Row → Bool
has_id i r = r.id == i

abbrev pub to_pending : Row → Row
to_pending r = record r { state = pending; started_at = none }

unfoldable pub reconcile_orphan_downloads : Table → Table × ℕ
unfolding execute
reconcile_orphan_downloads = execute (is_state downloading) to_pending

abbrev pub start : ℕ → Row → Row
start now r = record r {
  state = downloading;
  started_at = some now;
  attempts = r.attempts + 1;
  last_attempt_at = some now;
}

unfoldable pub mark_downloading : ℕ → ℕ → Table → Table
unfolding update
mark_downloading now item = update (has_id item) (start now)

abbrev pub finish : ℕ → Row → Row
finish now r = record r { state = done; finished_at = some now }

unfoldable pub mark_done : ℕ → ℕ → Table → Table
unfolding update
mark_done now item = update (has_id item) (finish now)

-- `SELECT attempts … WHERE id=?`
unfoldable pub attempts_of : ℕ → Table → Option ℕ
attempts_of item [] = none
attempts_of item (r ∷ t) = if has_id item r then some r.attempts else attempts_of item t

unfoldable pub failure_state : Option ℕ → ℕ → State
failure_state none max_attempts = pending
failure_state (some attempts) max_attempts = if leb max_attempts attempts then failed else pending

unfoldable pub mark_transient_failure : ℕ → Text → ℕ → Table → Table × State
unfolding update attempts_of failure_state
mark_transient_failure item error max_attempts t =
    let new_state = failure_state (attempts_of item t) max_attempts in
    (
      update (has_id item) (λ r. record r { state = new_state; last_error = some error }) t,
      new_state,
    )

-- `MAX(attempts-1, 0)` is the truncated difference.
abbrev pub hand_back : Row → Row
hand_back r = record r {
  state = pending;
  started_at = none;
  attempts = r.attempts - 1;
  last_error = none;
}

unfoldable pub mark_cancelled : ℕ → Table → Table
unfolding update
mark_cancelled item = update (has_id item) hand_back

-- `COALESCE(MAX(priority), 0)` and `COALESCE(MIN(priority), 0)`
unfoldable pub extreme : (ℤ → ℤ → ℤ) → Table → ℤ
extreme pick [] = pos 0
extreme pick (r ∷ []) = r.priority
extreme pick (r ∷ s ∷ t) = pick r.priority (extreme pick (s ∷ t))

-- `hours <= 0` returns early; `recorded_at >= cutoff` is false for NULL.
unfoldable pub recorded_since : ℕ → Row → Bool
recorded_since cutoff r = elim r.recorded_at [ none ↦ false | some t ↦ leb cutoff t ]

unfoldable pub prioritize_recent_hours : ℕ → ℕ → Table → Table × ℕ
unfolding execute extreme recorded_since
prioritize_recent_hours now hours t =
    if hours == 0
    then (t, 0)
    else execute (λ r. is_state pending r && recorded_since (now - hours * 3600) r)
        (λ r. record r { priority = extreme max_ℤ t +ℤ pos 1 }) t

pub data Position : Type 0 where
  top bottom : Position

unfoldable pub target_priority : Position → Table → ℤ
unfolding extreme
target_priority top t = extreme max_ℤ t +ℤ pos 1
target_priority bottom t = extreme min_ℤ t -ℤ pos 1

unfoldable pub prioritize : List Text → Position → Table → Table × ℕ
unfolding execute named
prioritize names position t =
    unless_empty names (t, 0)
      (execute (λ r. named names r && is_state pending r)
        (λ r. record r { priority = target_priority position t }) t)

abbrev pub requeue : Row → Row
requeue r = record r { state = pending; attempts = 0; last_error = none }

unfoldable pub retry : List Text → Table → Table × ℕ
unfolding execute named
retry names t =
    unless_empty names (t, 0) (execute (λ r. named names r && is_state failed r) requeue t)

unfoldable pub retry_failed : Table → Table × ℕ
unfolding execute
retry_failed = execute (is_state failed) requeue

abbrev pub skip_by_user : Row → Row
skip_by_user r = record r { state = skipped; skip_reason = some user; requested_at = none }

unfoldable pub skip : List Text → Table → Table × ℕ
unfolding execute named
skip names t =
    unless_empty names (t, 0)
      (execute (λ r. named names r && (is_state pending r || is_state failed r)) skip_by_user t)

-- The CASE reads the row as it was.
abbrev pub release : ℕ → Row → Row
release now r = record r {
  state = pending;
  attempts = 0;
  last_error = none;
  skip_reason = none;
  geofence_released_at = if is_geofence r.skip_reason then some now else r.geofence_released_at;
}

unfoldable pub unskip : ℕ → List Text → Table → Table × ℕ
unfolding execute named
unskip now names t =
    unless_empty names (t, 0) (execute (λ r. named names r && is_state skipped r) (release now) t)

abbrev pub skip_by_geofence : Row → Row
skip_by_geofence r = record r { state = skipped; skip_reason = some geofence; requested_at = none }

unfoldable pub geofence_skip : List Text → Table → Table × ℕ
unfolding execute named
geofence_skip names t =
    unless_empty names (t, 0)
      (execute (λ r. named names r && is_state pending r && is_none r.geofence_released_at)
        skip_by_geofence t)

abbrev pub unskip_row : Row → Row
unskip_row r = record r { state = pending; attempts = 0; last_error = none; skip_reason = none }

unfoldable pub unskip_geofence : Table → Table × ℕ
unfolding execute
unskip_geofence =
    execute (λ r. is_state skipped r && is_geofence r.skip_reason && is_none r.geofence_released_at)
      unskip_row

abbrev pub request : ℕ → Row → Row
request now r = record r { requested_at = some now }

unfoldable pub download_next : ℕ → List Text → Table → Table × ℕ
unfolding update named
download_next now names t =
    unless_empty names (t, 0)
      (let t1 = (unskip now names t).0 in
        let t2 = (retry names t1).0 in
        let t3 = update (λ r. named names r && is_state pending r) (request now) t2 in
        prioritize names top t3)
