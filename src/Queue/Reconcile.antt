-- ===== src/Queue/Reconcile.antt =====
-- `reconcile` of web/services/queue.py: a remote listing folded into the queue.
pub mod Spec
pub mod Loops
pub mod Refinement
pub mod Settled
pub mod Unique
pub mod Ids
pub mod Outcome
use viofosync.Prelude.{
  ℕ, zero, suc, ◌+◌, ◌≡◌, refl, Bool, true, false, not, ◌&&◌, ◌||◌, List, [], ◌∷◌, ◌++◌, map,
  Option, none, some, max, if◌then◌else◌, length, select, any, is_some,
}
use viofosync.Prelude.Int.{pos}
use viofosync.Prelude.Text.{Text, text_eq}
use viofosync.FileName.{camera_from_filename, event_from_filename}
use viofosync.Queue.Table.{update}
use viofosync.Queue.Row.{
  State, pending, downloading, done, failed, gone, skipped, Row, Table, is_state,
}
use viofosync.Queue.Ops.{finish}

-- What `reconcile` reads of a recording; `filepath` is `getattr(rec, "filepath", "") or ""`, and
-- `recorded` is `int(rec.datetime.timestamp())`.
pub record Recording : Type 0 where
  pub filename : Text
  pub filepath : Text
  pub size : Option ℕ
  pub recorded : Option ℕ

pub record Summary : Type 0 where
  pub added : ℕ
  pub marked_gone : ℕ
  pub marked_done : ℕ
  pub refreshed_source_dir : ℕ
  pub revived : ℕ
  pub gone_skipped : ℕ

abbrev pub no_changes : Summary
no_changes = record {
  added = 0;
  marked_gone = 0;
  marked_done = 0;
  refreshed_source_dir = 0;
  revived = 0;
  gone_skipped = 0;
}

-- The dict `remote_by_name`: a name listed twice keeps its place and takes the later recording.
abbrev pub Index : Type 0
Index = List (Text × Recording)

unfoldable pub put : Text → Recording → Index → Index
put name rec [] = (name, rec) ∷ []
put name rec ((k, old) ∷ m) = if text_eq k name then (k, rec) ∷ m else (k, old) ∷ put name rec m

unfoldable pub index_from : Index → List Recording → Index
unfolding put
index_from m [] = m
index_from m (rec ∷ recs) = index_from (put rec.filename rec m) recs

unfoldable pub remote_by_name : List Recording → Index
unfolding index_from
remote_by_name = index_from []

unfoldable pub listed : Text → Index → Bool
listed f m = any (λ (k, rec). text_eq k f) m

-- `present`, a set of names.
unfoldable pub contains : List Text → Text → Bool
contains names f = any (λ n. text_eq n f) names

-- `filename` is UNIQUE, so the row of a name is the first one.
unfoldable pub find : Text → Table → Option Row
find f [] = none
find f (r ∷ t) = if text_eq r.filename f then some r else find f t

unfoldable pub has_name : Text → Row → Bool
has_name f r = text_eq r.filename f

-- AUTOINCREMENT.
unfoldable pub next_id : Table → ℕ
next_id [] = 1
next_id (r ∷ t) = max (r.id + 1) (next_id t)

-- INSERT, with the columns' defaults.
unfoldable pub new_row : State → Option ℕ → ℕ → ℕ → Text → Recording → Row
new_row state finished_at now id name rec = record {
  id = id;
  filename = name;
  source_dir = rec.filepath;
  remote_size = rec.size;
  recorded_at = rec.recorded;
  camera = camera_from_filename name;
  event_type = event_from_filename name;
  state = state;
  priority = pos 0;
  attempts = 0;
  last_error = none;
  last_attempt_at = none;
  enqueued_at = now;
  started_at = none;
  finished_at = finished_at;
  requested_at = none;
  skip_reason = none;
  geofence_released_at = none;
  locked = false;
  triage_attempts = 0;
  triage_last_attempt_at = none;
  triaged_at = none;
  gps_points = none;
  remote_complete = none;
}

-- `fresh_source or existing["source_dir"]`
unfoldable pub or_else : Text → Text → Text
or_else [] old = old
or_else (c ∷ fresh) old = c ∷ fresh

unfoldable pub revive : Text → Row → Row
unfolding or_else
revive source r = record r {
  state = pending;
  attempts = 0;
  last_error = none;
  finished_at = none;
  requested_at = none;
  source_dir = source;
}

abbrev pub tracked : Row → Bool
tracked r = is_state pending r || is_state failed r

abbrev pub is_empty {ℓ} : {A : Type ℓ} → List A → Bool
is_empty [] = true
is_empty (x ∷ xs) = false

-- `fresh_source and source_dir != fresh_source and state in ("pending", "failed")`
unfoldable pub is_stale : Text → Row → Bool
is_stale fresh r = not (is_empty fresh) && not (text_eq r.source_dir fresh) && tracked r

abbrev pub vanish : ℕ → Row → Row
vanish now r = record r { state = gone; finished_at = some now }

abbrev pub Progress : Type 0
Progress = Table × Summary

-- The loop's body for one listed name, by the row that `existing` has for it. First where the file
-- is on disk.
unfoldable pub visit_held : ℕ → Text → Recording → Option Row → Progress → Progress
visit_held now name rec none (t, s) = (
  t ++ new_row done (some now) now (next_id t) name rec ∷ [],
  record s { marked_done = s.marked_done + 1 },
)
visit_held now name rec (some e) (t, s) =
    if tracked e || is_state gone e
    then (update (has_name name) (finish now) t, record s { marked_done = s.marked_done + 1 })
    else (t, s)

unfoldable pub visit_wanted : ℕ → Text → Recording → Option Row → Progress → Progress
visit_wanted now name rec none (t, s) =
    (t ++ new_row pending none now (next_id t) name rec ∷ [], record s { added = s.added + 1 })
visit_wanted now name rec (some e) (t, s) =
    if is_state gone e
    then (
      update (has_name name) (revive (or_else rec.filepath e.source_dir)) t,
      record s { revived = s.revived + 1 },
    )
    else if is_stale rec.filepath e
    then (
      update (has_name name) (λ r. record r { source_dir = rec.filepath }) t,
      record s { refreshed_source_dir = s.refreshed_source_dir + 1 },
    )
    else (t, s)

unfoldable pub visit : ℕ → List Text → Table → Text → Recording → Progress → Progress
visit now present existing name rec p =
    if contains present name
    then visit_held now name rec (find name existing) p
    else visit_wanted now name rec (find name existing) p

unfoldable pub visit_all : ℕ → List Text → Table → Index → Progress → Progress
visit_all now present existing [] p = p
visit_all now present existing ((name, rec) ∷ m) p =
    visit_all now present existing m (visit now present existing name rec p)

-- The second loop, over the rows that were tracked, and its body.
unfoldable pub vanish_one : ℕ → Index → Row → Progress → Progress
vanish_one now m e (t, s) =
    if listed e.filename m
    then (t, s)
    else (update (has_name e.filename) (vanish now) t, record s { marked_gone = s.marked_gone + 1 })

unfoldable pub vanish_all : ℕ → Index → Table → Progress → Progress
vanish_all now m [] p = p
vanish_all now m (e ∷ es) p = vanish_all now m es (vanish_one now m e p)

unfoldable pub reconcile : ℕ → List Recording → List Text → Table → Progress
reconcile now recordings present t =
    let m = remote_by_name recordings in
    let (t', s) = visit_all now present t m (t, no_changes) in
    let tracked_rows = select tracked t in
    if is_empty m && not (is_empty tracked_rows)
    then (t', record s { gone_skipped = length tracked_rows })
    else vanish_all now m tracked_rows (t', s)
