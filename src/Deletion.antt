-- ===== src/Deletion.antt =====
-- Deletes that a user asks for, and the delete on the camera after a download: `delete_clips`,
-- `set_locked`, `delete_from_camera` and `skip_listed_names` of web/services/queue.py, with
-- `_maybe_delete_from_dashcam` of web/services/sync_worker.py and `delete_dashcam_file` of
-- viofosync_lib/__init__.py. The camera is a parameter.
pub mod Remote
pub mod Local
pub mod Pinned
pub mod Requests
use viofosync.Prelude.{
  ℕ, ◌+◌, Bool, true, false, not, ◌&&◌, ◌||◌, List, [], ◌∷◌, ◌++◌, map, Option, none, some, leb,
  ltb, ◌==◌, if◌then◌else◌, length, select, any, count,
}
use viofosync.Prelude.Text.{Text, codes, text_eq}
use viofosync.Queue.Table.{update}
use viofosync.Queue.Row.{gone, skipped, user, Row, Table, named, is_state, ro_path}
use viofosync.Queue.Ops.{unless_empty, execute, has_id, skip_by_user}
use viofosync.Retention.{Clip, Host, Store, is_ro, add_dir, prune_empty_dirs, delete_clip}

-- What `urlopen` does: a response with its status, or one of the exceptions that are caught.
pub data Answer : Type 0 where
  response : (status : ℕ) → Answer
  http_error url_error : Answer

-- A camera, of any type `C` of its states, answers a GET of a URL.
pub record Dashcam (C : Type 0) : Type 0 where
  pub get : C → Text → Answer × C

unfoldable pub is_success : Answer → Bool
is_success (response status) = leb 200 status && ltb status 300
is_success http_error = false
is_success url_error = false

unfoldable pub delete_url : Text → Text → Text → Text
delete_url base_url source_dir filename =
    base_url ++ (codes "/?custom=1&cmd=4003&str=" ++ (source_dir ++ (codes "/" ++ filename)))

unfoldable pub delete_dashcam_file : {C : Type 0} → Dashcam C → Text → Text → Text → C → Bool × C
unfolding is_success delete_url
delete_dashcam_file cam base_url source_dir filename c =
    let (answer, c') = cam.get c (delete_url base_url source_dir filename) in
    (is_success answer, c')

pub record Deletes : Type 0 where
  pub deleted : ℕ
  pub skipped : ℕ
  pub errors : ℕ
  pub gone_names : List Text

abbrev pub no_deletes : Deletes
no_deletes = record { deleted = 0; skipped = 0; errors = 0; gone_names = [] }

-- `r["locked"] or "/RO/" in sd or sd.endswith("/RO")`
unfoldable pub is_kept : Row → Bool
is_kept r = r.locked || ro_path r.source_dir

module _ {C : Type 0} (cam : Dashcam C) (base_url : Text) where
  abbrev pub note_answer : Row → Deletes → Bool × C → Deletes × C
  note_answer r d (true, c) =
      (record d { deleted = d.deleted + 1; gone_names = r.filename ∷ d.gone_names }, c)
  note_answer r d (false, c) = (record d { errors = d.errors + 1 }, c)

  unfoldable pub delete_row : Row → Deletes × C → Deletes × C
  unfolding delete_dashcam_file is_kept
  delete_row r (d, c) =
      if is_kept r
      then (record d { skipped = d.skipped + 1 }, c)
      else note_answer r d (delete_dashcam_file cam base_url r.source_dir r.filename c)

  unfoldable pub delete_rows : Table → Deletes × C → Deletes × C
  unfolding delete_row
  delete_rows [] x = x
  delete_rows (r ∷ rows) x = delete_rows rows (delete_row r x)

  -- With no name in the list the update writes nothing, as `if gone` has it.
  unfoldable pub delete_from_camera : List Text → Table → C → Table × Deletes × C
  unfolding delete_rows update named
  delete_from_camera names t c =
      unless_empty names (t, no_deletes, c)
        (let (d, c') = delete_rows (select (named names) t) (no_deletes, c) in
          (update (named d.gone_names) (λ r. record r { state = gone }) t, d, c'))

-- The reasons of `_should_delete_after_download`.
pub data Verdict : Type 0 where
  setting_off locked local_missing size_mismatch ok : Verdict

-- `not item.remote_size or local_size != item.remote_size`
abbrev pub size_matches : Option ℕ → ℕ → Bool
size_matches none local_size = false
size_matches (some n) local_size = not (n == 0) && (local_size == n)

unfoldable pub should_delete_after_download : Row → Bool → ℕ → Bool → Bool × Verdict
should_delete_after_download item delete_enabled local_size local_exists =
    if not delete_enabled
    then (false, setting_off)
    else if ro_path item.source_dir
    then (false, locked)
    else if not local_exists
    then (false, local_missing)
    else if not (size_matches item.remote_size local_size)
    then (false, size_mismatch)
    else (true, ok)

-- What `os.path` says of the downloaded file: its size, or `none` when it is missing or an
-- OSError is raised.
abbrev pub local_exists : Option ℕ → Bool
local_exists none = false
local_exists (some n) = true

abbrev pub local_size : Option ℕ → ℕ
local_size none = 0
local_size (some n) = n

-- The event that the web interface is sent: the clip, success, and the reason.
pub data Event : Type 0 where
  dashcam_delete : (filename : Text) → (success : Bool) → (reason : Text) → Event

abbrev reason_text : Verdict → Text
reason_text setting_off = codes "setting_off"
reason_text locked = codes "locked"
reason_text local_missing = codes "local_missing"
reason_text size_mismatch = codes "size_mismatch"
reason_text ok = codes "ok"

module _ {C : Type 0} (cam : Dashcam C) (base_url : Text) where
  abbrev pub asked : Row → Bool × C → List Event × C
  asked item (true, c) = (dashcam_delete item.filename true (codes "ok") ∷ [], c)
  asked item (false, c) = (dashcam_delete item.filename false (codes "request_failed") ∷ [], c)

  abbrev pub on_verdict : Row → C → Bool × Verdict → List Event × C
  on_verdict item c (true, reason) =
      asked item (delete_dashcam_file cam base_url item.source_dir item.filename c)
  on_verdict item c (false, setting_off) = ([], c)
  on_verdict item c (false, reason) =
      (dashcam_delete item.filename false (reason_text reason) ∷ [], c)

  unfoldable pub maybe_delete_from_dashcam : Row → Bool → Option ℕ → C → List Event × C
  unfolding should_delete_after_download delete_dashcam_file
  maybe_delete_from_dashcam item delete_enabled file c =
      on_verdict item c
        (should_delete_after_download item delete_enabled (local_size file) (local_exists file))

-- The queue's row and the item in memory.
abbrev pub refresh_size : Option ℕ → Row → Row
refresh_size none r = r
refresh_size (some actual) r = record r { remote_size = some actual }

unfoldable pub refresh_queue_size : Row → Option ℕ → Table → Table × Row
unfolding update
refresh_queue_size item none t = (t, item)
refresh_queue_size item (some actual) t =
    (update (has_id item.id) (refresh_size (some actual)) t, refresh_size (some actual) item)

-- `skip_listed_names`, a set.
unfoldable pub skip_listed_names : List Text → Table → List Text
unfolding named
skip_listed_names names t =
    map (λ r. r.filename) (select (λ r. is_state skipped r && named names r) t)
