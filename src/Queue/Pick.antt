-- ===== src/Queue/Pick.antt =====
-- `next_pending` and the read queries of web/services/queue.py that say what a connection takes.
pub mod Choice
pub mod Preview
use viofosync.Prelude.{
  ℕ, ◌+◌, ◌≡◌, refl, Bool, true, false, not, ◌&&◌, ◌||◌, List, [], ◌∷◌, Option, none, some,
  if◌then◌else◌, is_none, is_some, select, count,
}
use viofosync.Queue.Table.{first_by, update}
use viofosync.Queue.Row.{
  pending, failed, Row, Table, Scope, is_state, scope_sql, held_sql, stranded_sql, awaits_triage,
  is_active, is_newest, before,
}
use viofosync.Queue.Ops.{execute}

-- The WHERE clause of `next_pending`.
unfoldable pub is_eligible : Scope → Bool → Bool → Table → Row → Bool
is_eligible scope triage_gate active_guard t r =
    is_state pending r
    && (is_some r.requested_at || scope_sql scope r)
    && not (triage_gate && awaits_triage t r)
    && not (active_guard && is_active t r)

unfoldable pub next_pending : Scope → Bool → Bool → Table → Option Row
unfolding first_by
next_pending scope triage_gate active_guard t =
    first_by before (select (is_eligible scope triage_gate active_guard t) t)

pub record ScopePreview : Type 0 where
  pub now : ℕ
  pub held : ℕ
  pub stranded : ℕ

-- The sums run over the pending rows; `SUM(1 - held)` counts those that are not held.
unfoldable pub scope_preview : Scope → Option Scope → Table → ScopePreview
scope_preview scope other t =
    let rows = select (is_state pending) t in
    record {
      now = count (λ r. not (held_sql (some scope) r)) rows;
      held = count (held_sql (some scope)) rows;
      stranded = count (stranded_sql (some scope) other) rows;
    }

-- sync_worker.py: `recording_state` is the camera's record flag, `none` for unknown.
unfoldable pub run_recording_status_release : Option ℕ → Table → Table × ℕ
unfolding execute
run_recording_status_release (some ℕ.zero) t =
    execute
      (λ r. (is_state pending r || is_state failed r) && is_none r.remote_complete && is_newest t r)
      (λ r. record r { remote_complete = some 1 }) t
run_recording_status_release _ t = (t, 0)
