-- ===== src/DeriveQueue.antt =====
-- web/services/derive_queue.py, the queue of clips to derive thumbnails and durations for, and the
-- loop of derive_worker.py that drains it.
pub mod Rows
pub mod Drain
pub mod Scan
use viofosync.Prelude.{
  ℕ, zero, suc, ◌+◌, min, Bool, true, false, not, ◌&&◌, ◌||◌, List, [], ◌∷◌, ◌++◌, Option, none,
  some, leb, ltb, ◌==◌, if◌then◌else◌, length, select, any, count,
}
use viofosync.Prelude.Text.{Text, codes}
use viofosync.Queue.Table.{update, first_by}

pub data JobState : Type 0 where
  pending running done failed : JobState

-- A row of `derive_queue`.
pub record Job : Type 0 where
  pub clip_id : ℕ
  pub priority : ℕ
  pub state : JobState
  pub attempts : ℕ
  pub last_error : Option Text
  pub enqueued_at : ℕ
  pub updated_at : ℕ

abbrev pub Jobs : Type 0
Jobs = List Job

abbrev pub is_pending : Job → Bool
is_pending j = elim j.state [ pending ↦ true | running ↦ false | done ↦ false | failed ↦ false ]

abbrev pub is_running : Job → Bool
is_running j = elim j.state [ pending ↦ false | running ↦ true | done ↦ false | failed ↦ false ]

abbrev pub is_done : Job → Bool
is_done j = elim j.state [ pending ↦ false | running ↦ false | done ↦ true | failed ↦ false ]

abbrev pub has_clip : ℕ → Job → Bool
has_clip clip_id j = j.clip_id == clip_id

unfoldable pub new_job : ℕ → ℕ → ℕ → Job
new_job clip_id priority now = record {
  clip_id = clip_id;
  priority = priority;
  state = pending;
  attempts = 0;
  last_error = none;
  enqueued_at = now;
  updated_at = now;
}

-- `ON CONFLICT … DO UPDATE`: of `enqueue_missing`, and of `enqueue`, which spares a running row.
unfoldable pub restart : ℕ → ℕ → Job → Job
restart priority now j = record j {
  priority = min j.priority priority;
  state = pending;
  attempts = 0;
  last_error = none;
  updated_at = now;
}

unfoldable pub reactivate : ℕ → ℕ → Job → Job
unfolding restart
reactivate priority now j =
    if is_running j
    then record j { priority = min j.priority priority; updated_at = now }
    else restart priority now j

unfoldable pub upsert : (Job → Job) → Job → Jobs → Jobs
unfolding update
upsert f j t = if any (has_clip j.clip_id) t then update (has_clip j.clip_id) f t else t ++ j ∷ []

unfoldable pub enqueue : ℕ → ℕ → ℕ → Jobs → Jobs
unfolding upsert reactivate new_job
enqueue clip_id priority now = upsert (reactivate priority now) (new_job clip_id priority now)

-- `ORDER BY priority ASC, clip_id DESC`
unfoldable pub sooner : Job → Job → Bool
sooner a b = ltb a.priority b.priority || ((a.priority == b.priority) && ltb b.clip_id a.clip_id)

unfoldable pub next_job : Jobs → Option Job
unfolding first_by
next_job t = first_by sooner (select is_pending t)

abbrev pub run : ℕ → Job → Job
run now j = record j { state = running; updated_at = now }

unfoldable pub claim : ℕ → Option Job → Jobs → Jobs × Option ℕ
unfolding update
claim now none t = (t, none)
claim now (some j) t = (update (has_clip j.clip_id) (run now) t, some j.clip_id)

unfoldable pub claim_next : ℕ → Jobs → Jobs × Option ℕ
unfolding claim next_job
claim_next now t = claim now (next_job t) t

abbrev pub complete : ℕ → Job → Job
complete now j = record j { state = done; last_error = none; updated_at = now }

unfoldable pub mark_done : ℕ → ℕ → Jobs → Jobs
unfolding update
mark_done clip_id now = update (has_clip clip_id) (complete now)

-- `row["attempts"] if row else 0`
unfoldable pub attempts_of : ℕ → Jobs → ℕ
attempts_of clip_id [] = 0
attempts_of clip_id (j ∷ t) = if has_clip clip_id j then j.attempts else attempts_of clip_id t

abbrev pub failure_state : ℕ → ℕ → JobState
failure_state attempts max_attempts = if leb max_attempts attempts then failed else pending

abbrev pub fail : ℕ → Text → ℕ → ℕ → Job → Job
fail attempts error max_attempts now j = record j {
  state = failure_state attempts max_attempts;
  attempts = attempts;
  last_error = some error;
  updated_at = now;
}

unfoldable pub mark_transient_failure : ℕ → Text → ℕ → ℕ → Jobs → Jobs × JobState
unfolding update attempts_of
mark_transient_failure clip_id error max_attempts now t =
    let attempts = attempts_of clip_id t + 1 in
    (
      update (has_clip clip_id) (fail attempts error max_attempts now) t,
      failure_state attempts max_attempts,
    )

abbrev pub put_back : ℕ → Job → Job
put_back now j = record j { state = pending; updated_at = now }

unfoldable pub reconcile_orphans : ℕ → Jobs → Jobs × ℕ
unfolding update
reconcile_orphans now t = (update is_running (put_back now) t, count is_running t)

unfoldable pub remove_clip : ℕ → Jobs → Jobs
remove_clip clip_id t = select (λ j. not (has_clip clip_id j)) t

unfoldable pub pending_count : Jobs → ℕ
pending_count t = count (λ j. is_pending j || is_running j) t

-- `dq.clip_id IS NULL OR dq.state NOT IN ('done', 'running')`
unfoldable pub is_missing : Jobs → ℕ → Bool
is_missing t clip_id = not (any (λ j. has_clip clip_id j && (is_done j || is_running j)) t)

unfoldable pub upsert_all : ℕ → ℕ → List ℕ → Jobs → Jobs
unfolding upsert restart new_job
upsert_all priority now [] t = t
upsert_all priority now (i ∷ ids) t =
    upsert_all priority now ids (upsert (restart priority now) (new_job i priority now) t)

-- The argument `ids` is the column `clip_index.id`; the SELECT is complete before the inserts.
unfoldable pub enqueue_missing : List ℕ → ℕ → ℕ → Jobs → Jobs × ℕ
unfolding upsert_all is_missing
enqueue_missing ids priority now t =
    let wanted = select (is_missing t) ids in (upsert_all priority now wanted t, length wanted)

-- derive_worker.py: what `derive_one` reports, or the text of the exception that it raised.
pub data Report : Type 0 where
  result : (gone transient_failed : Bool) → Report
  crashed : Text → Report

-- `_process`, whose clip is `none` when its index row is missing.
unfoldable pub settle : ℕ → ℕ → ℕ → Report → Jobs → Jobs
unfolding remove_clip mark_transient_failure mark_done
settle max_attempts now clip_id (crashed error) t =
    (mark_transient_failure clip_id error max_attempts now t).0
settle max_attempts now clip_id (result true transient_failed) t = remove_clip clip_id t
settle max_attempts now clip_id (result false true) t =
    (mark_transient_failure clip_id (codes "transient") max_attempts now t).0
settle max_attempts now clip_id (result false false) t = mark_done clip_id now t

unfoldable pub process : ℕ → ℕ → ℕ → Option Report → Jobs → Jobs
unfolding remove_clip settle
process max_attempts now clip_id none t = remove_clip clip_id t
process max_attempts now clip_id (some report) t = settle max_attempts now clip_id report t

-- One turn of `_run`'s loop: the new queue, or `none` when it goes to sleep.
unfoldable pub turn_with : ℕ → ℕ → (ℕ → Option Report) → Jobs × Option ℕ → Option Jobs
unfolding process
turn_with max_attempts now derive (t, none) = none
turn_with max_attempts now derive (t, some clip_id) =
    some (process max_attempts now clip_id (derive clip_id) t)

unfoldable pub turn : ℕ → ℕ → (ℕ → Option Report) → Jobs → Option Jobs
unfolding turn_with claim_next
turn max_attempts now derive t = turn_with max_attempts now derive (claim_next now t)

-- The loop until it sleeps, or for `fuel` turns. The reports and the clock are those of the turn.
unfoldable pub drain : ℕ → ℕ → (ℕ → ℕ) → (ℕ → ℕ → Option Report) → Jobs → Jobs
unfolding turn
drain zero max_attempts clock derive t = t
drain (suc fuel) max_attempts clock derive t =
    elim (turn max_attempts (clock fuel) (derive fuel) t) [
      | none ↦ t
      | some t' ↦ drain fuel max_attempts clock derive t'
    ]
