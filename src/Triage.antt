-- ===== src/Triage.antt =====
-- web/services/triage.py: reading the GPS tracks of clips that are not downloaded yet. The camera's
-- answer and the clock are arguments; the skeletons on the disk are the list of their clips' names.
pub mod Retries
pub mod Pool
use viofosync.Prelude.{
  ℕ, zero, suc, ◌+◌, Bool, true, false, not, ◌&&◌, ◌||◌, List, [], ◌∷◌, Option, none, some, ltb,
  leb, ◌==◌, if◌then◌else◌, is_none, any, select, count, take,
}
use viofosync.Prelude.Int.{ℤ, pos, negsuc}
use viofosync.Prelude.Text.{Text, text_eq}
use viofosync.FileName.{Event, parking, gps_lens_sql}
use viofosync.Queue.Table.{update}
use viofosync.Queue.Row.{
  State, pending, failed, skipped, downloading, Row, Table, is_state, is_newest, is_active,
  triage_max_attempts,
}
use viofosync.Queue.Ops.{has_id}

-- TRIAGE_SETTLE_S, TRIAGE_SETTLE_PARKING_S.
abbrev pub triage_settle_s : ℕ
triage_settle_s = 120

abbrev pub triage_settle_parking_s : ℕ
triage_settle_parking_s = 1860

-- What a read can raise, by the classes that `_is_offline_error` tells apart; HTTPError is a
-- subclass of URLError.
pub data Failure : Type 0 where
  http_error url_error timeout_error remote_disconnected connection_error unreadable : Failure

unfoldable pub is_offline_error : Failure → Bool
is_offline_error http_error = false
is_offline_error unreadable = false
is_offline_error _ = true

-- `extract_remote_gps_points`: how many points it returns, or what it raises.
pub data Reading : Type 0 where
  points : ℕ → Reading
  incomplete_recording : Reading
  raises : Failure → Reading

abbrev pub settle_s : Option Event → ℕ
settle_s (some parking) = triage_settle_parking_s
settle_s _ = triage_settle_s

-- `recorded_at IS NULL OR ? - recorded_at >= …`
abbrev pub is_past : Option ℕ → ℕ → ℕ → Bool
is_past none wait now = true
is_past (some since) wait now = leb (since + wait) now

-- The CASE on `triage_attempts`.
abbrev pub backoff_s : ℕ → ℕ
backoff_s attempts =
    if attempts == 1 then 10 else if attempts == 2 then 30 else if attempts == 3 then 120 else 600

-- The WHERE of `select_targets`, in a table.
unfoldable pub is_target : ℕ → Table → Row → Bool
unfolding gps_lens_sql is_active
is_target now t r =
    is_state pending r
    && is_none r.triaged_at
    && gps_lens_sql r.filename
    && not (is_active t r)
    && is_past r.recorded_at (settle_s r.event_type) now
    && ltb r.triage_attempts triage_max_attempts
    && is_past r.triage_last_attempt_at (backoff_s r.triage_attempts) now

-- The columns that `select_targets` returns.
pub record Target : Type 0 where
  pub id : ℕ
  pub filename : Text
  pub source_dir : Text
  pub remote_size : Option ℕ
  pub recorded_at : Option ℕ

abbrev pub target_of : Row → Target
target_of r = record {
  id = r.id;
  filename = r.filename;
  source_dir = r.source_dir;
  remote_size = r.remote_size;
  recorded_at = r.recorded_at;
}

-- `ORDER BY recorded_at DESC, id DESC`, where NULL is the least.
abbrev later : Option ℕ → Option ℕ → Bool
later none b = false
later (some a) none = true
later (some a) (some b) = ltb b a

unfoldable pub newer : Row → Row → Bool
newer a b =
    later a.recorded_at b.recorded_at || not (later b.recorded_at a.recorded_at) && ltb b.id a.id

unfoldable pub insert_by_age : Row → List Row → List Row
unfolding newer
insert_by_age r [] = r ∷ []
insert_by_age r (s ∷ t) = if newer s r then s ∷ insert_by_age r t else r ∷ s ∷ t

abbrev pub limited : Option ℕ → List Target → List Target
limited none targets = targets
limited (some n) targets = take n targets

unfoldable pub targets_in : ℕ → Table → Table → List Row
unfolding is_target insert_by_age
targets_in now t [] = []
targets_in now t (r ∷ rows) =
    let rest = targets_in now t rows in if is_target now t r then insert_by_age r rest else rest

abbrev pub to_targets : List Row → List Target
to_targets [] = []
to_targets (r ∷ rows) = target_of r ∷ to_targets rows

unfoldable pub select_targets : Option ℕ → ℕ → Table → List Target
unfolding targets_in
select_targets limit now t = limited limit (to_targets (targets_in now t t))

unfoldable pub has_pending_targets : ℕ → Table → Bool
unfolding select_targets
has_pending_targets now t = elim (select_targets (some 1) now t) [ [] ↦ false | _ ∷ _ ↦ true ]

pub record World : Type 0 where
  pub queue : Table
  pub skeletons : List Text

-- `_write_skeleton`, when the disk takes the file.
unfoldable pub write_skeleton : Text → List Text → List Text
unfolding text_eq
write_skeleton filename names = filename ∷ select (λ n. not (text_eq n filename)) names

abbrev pub settle_row : ℕ → ℕ → Row → Row
settle_row now n r = record r { triaged_at = some now; gps_points = some n }

abbrev pub defer_row : ℕ → Row → Row
defer_row now r = record r { triage_last_attempt_at = some now }

abbrev pub fail_row : ℕ → Row → Row
fail_row now r = record r {
  triage_attempts = r.triage_attempts + 1;
  triage_last_attempt_at = some now;
}

abbrev pub in_queue : Target → (Row → Row) → World → World
in_queue row f w = record w { queue = update (has_id row.id) f w.queue }

-- `key == newest`, for the row with the id.
abbrev pub is_newest_id : ℕ → Table → Bool
is_newest_id i t = any (λ r. has_id i r && is_newest t r) t

-- `triage_one`: the world after it, and what it returns; none is the OSError of a skeleton that
-- cannot be written. The row that it gets has no `remote_complete`, so its test of that holds.
unfoldable pub triage_one : ℕ → Target → Reading → (writes : Bool) → World → World × Option ℤ
unfolding update is_newest is_offline_error write_skeleton
triage_one now row incomplete_recording writes w = (
  in_queue row (if is_newest_id row.id w.queue then defer_row now else settle_row now 0) w,
  some (negsuc 0),
)
triage_one now row (raises failure) writes w =
    (if is_offline_error failure then w else in_queue row (fail_row now) w, some (negsuc 0))
triage_one now row (points zero) writes w = (in_queue row (settle_row now 0) w, some (pos 0))
triage_one now row (points (suc n)) false w = (w, none)
triage_one now row (points (suc n)) true w =
    let written = record w { skeletons = write_skeleton row.filename w.skeletons } in
    (in_queue row (settle_row now (suc n)) written, some (pos (suc n)))

-- `SKELETON_KEEP_STATES`
abbrev pub keeps_skeleton : Row → Bool
keeps_skeleton r =
    is_state pending r || is_state failed r || is_state skipped r || is_state downloading r

abbrev pub is_live : Table → Text → Bool
is_live t filename = any (λ r. keeps_skeleton r && text_eq r.filename filename) t

-- `sweep_orphans`, where a removal can fail.
unfoldable pub sweep_orphans : (removable : Text → Bool) → World → World × ℕ
unfolding text_eq
sweep_orphans removable w =
    let is_orphan : Text → Bool = λ n. not (is_live w.queue n) && removable n in
    (
      record w { skeletons = select (λ n. not (is_orphan n)) w.skeletons },
      count is_orphan w.skeletons,
    )

unfoldable pub remove_skeleton : Text → World → World
unfolding text_eq
remove_skeleton filename w = record w {
  skeletons = select (λ n. not (text_eq n filename)) w.skeletons;
}
