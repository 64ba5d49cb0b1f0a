-- ===== src/Queue/Row.antt =====
-- A row of `download_queue` (web/db.py) and the predicates that the queue's SQL builds from it:
-- the scope of a connection, held and stranded rows, the triage gate and the active-capture guard.
use viofosync.Prelude.{
  ℕ, Bool, true, false, not, ◌&&◌, ◌||◌, List, [], ◌∷◌, Option, none, some, ltb, if◌then◌else◌,
  is_none, any,
}
use viofosync.Prelude.Int.{ℤ, ltb_ℤ, eqb_ℤ}
use viofosync.Prelude.Text.{Text, codes, text_eq, text_leb, has_infix, has_suffix, fold_case}
use viofosync.FileName.{Event, event_prefix_is, capture_key_sql, gps_sibling_sql}

pub data State : Type 0 where
  pending downloading done failed gone skipped : State

pub data SkipReason : Type 0 where
  user geofence : SkipReason

pub record Row : Type 0 where
  pub id : ℕ
  pub filename : Text
  pub source_dir : Text
  pub remote_size : Option ℕ
  pub recorded_at : Option ℕ
  pub camera : Option ℕ
  pub event_type : Option Event
  pub state : State
  pub priority : ℤ
  pub attempts : ℕ
  pub last_error : Option Text
  pub last_attempt_at : Option ℕ
  pub enqueued_at : ℕ
  pub started_at : Option ℕ
  pub finished_at : Option ℕ
  pub requested_at : Option ℕ
  pub skip_reason : Option SkipReason
  pub geofence_released_at : Option ℕ
  pub locked : Bool
  pub triage_attempts : ℕ
  pub triage_last_attempt_at : Option ℕ
  pub triaged_at : Option ℕ
  pub gps_points : Option ℕ
  pub remote_complete : Option ℕ

abbrev pub Table : Type 0
Table = List Row

abbrev pub state_eq : State → State → Bool
state_eq pending pending = true
state_eq downloading downloading = true
state_eq done done = true
state_eq failed failed = true
state_eq gone gone = true
state_eq skipped skipped = true
state_eq _ _ = false

-- `state = s`
abbrev pub is_state : State → Row → Bool
is_state s r = state_eq r.state s

-- `skip_reason = 'geofence'`
abbrev pub is_geofence : Option SkipReason → Bool
is_geofence (some geofence) = true
is_geofence _ = false

-- `filename IN (…)`
unfoldable pub named : List Text → Row → Bool
named names r = any (text_eq r.filename) names

pub data Scope : Type 0 where
  everything no_parking ro_only nothing : Scope

-- `_RO_SQL`; LIKE compares without regard to case.
unfoldable pub ro_sql : Text → Bool
ro_sql source_dir =
    has_infix (codes "/RO/") (fold_case source_dir)
    || has_suffix (codes "/RO") (fold_case source_dir)

-- The test that Python code makes on the same column, which does regard case.
unfoldable pub ro_path : Text → Bool
ro_path source_dir = has_infix (codes "/RO/") source_dir || has_suffix (codes "/RO") source_dir

-- `scope_sql`; its ValueError is for a text that is none of the four scopes.
unfoldable pub scope_sql : Scope → Row → Bool
scope_sql everything r = true
scope_sql nothing r = false
scope_sql ro_only r = ro_sql r.source_dir
scope_sql no_parking r = ro_sql r.source_dir || not (event_prefix_is b'P' r.filename)

unfoldable pub held_sql : Option Scope → Row → Bool
held_sql none r = false
held_sql (some scope) r = is_state pending r && is_none r.requested_at && not (scope_sql scope r)

unfoldable pub stranded_sql : Option Scope → Option Scope → Row → Bool
stranded_sql none other r = false
stranded_sql (some scope) none r = held_sql (some scope) r
stranded_sql (some scope) (some other) r = held_sql (some scope) r && not (scope_sql other r)

-- `SELECT MAX(capture_key) FROM download_queue WHERE state <> 'gone'`, NULL for no row.
abbrev max_key : Text → Option Text → Text
max_key k none = k
max_key k (some l) = if text_leb k l then l else k

unfoldable pub newest_capture : Table → Option Text
newest_capture [] = none
newest_capture (r ∷ t) =
    let rest = newest_capture t in
    if is_state gone r then rest else some (max_key (capture_key_sql r.filename) rest)

-- `capture_key = (newest capture)`, where NULL equals nothing.
unfoldable pub is_newest : Table → Row → Bool
is_newest t r = elim (newest_capture t) [
  | none ↦ false
  | some k ↦ text_eq (capture_key_sql r.filename) k
]

abbrev pub triage_max_attempts : ℕ
triage_max_attempts = 5

-- The row's GPS-bearing sibling still awaits triage.
unfoldable pub awaits_triage : Table → Row → Bool
awaits_triage t r =
    any
      (λ f.
        gps_sibling_sql f.filename r.filename
        && is_state pending f
        && is_none f.triaged_at
        && ltb f.triage_attempts triage_max_attempts)
      t

-- The row may still be recording.
unfoldable pub is_active : Table → Row → Bool
is_active t r = is_newest t r && is_none r.remote_complete

-- `ORDER BY priority DESC, enqueued_at ASC`
unfoldable pub before : Row → Row → Bool
before a b =
    ltb_ℤ b.priority a.priority || (eqb_ℤ a.priority b.priority && ltb a.enqueued_at b.enqueued_at)
