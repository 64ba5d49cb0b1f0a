-- ===== src/Queue/Machine.antt =====
-- The state machine of queue.py's module comment, as a relation, and the statements against it.
pub mod Commands
pub mod Worker
use viofosync.Prelude.{
  ℕ, zero, suc, ◌==◌, ◌+◌, ◌≤◌, ◌<◌, ◌≡◌, refl, ◌⊎◌, inl, inr, Bool, true, false, ◌&&◌, ◌||◌, ◌-◌,
  ◌*◌, is_none, List, [], ◌∷◌, Option, none, some, arith, All, Bool-cases,
}
use viofosync.Prelude.Text.{Text}
use viofosync.Prelude.Int.{ℤ, pos, ◌+ℤ◌, max_ℤ}
use viofosync.Queue.Table.{update, Rows, update-Rows, Rows-comp, Rows-imp}
use viofosync.Queue.Row.{
  State, pending, downloading, done, failed, gone, skipped, Row, Table, is_state, named,
  is_geofence,
}
use viofosync.Queue.Ops.{
  execute, reconcile_orphan_downloads, mark_downloading, mark_done, mark_transient_failure,
  failure_state, attempts_of, mark_cancelled, prioritize, prioritize_recent_hours, Position, retry,
  retry_failed, skip, unskip, geofence_skip, unskip_geofence, download_next, has_id, top,
  unless_empty, start, finish, hand_back, request, skip_by_user, release, requeue, skip_by_geofence,
  unskip_row, to_pending, target_priority, recorded_since, extreme,
}

-- The arrows of the comment, with failed to gone, which `reconcile` takes too.
pub data Edge : State → State → Type 0 where
  pick : Edge pending downloading
  complete : Edge downloading done
  give_back : Edge downloading pending
  exhaust : Edge downloading failed
  vanish : Edge pending gone
  vanish_failed : Edge failed gone
  retried : Edge failed pending
  skip_pending : Edge pending skipped
  skip_failed : Edge failed skipped
  unskipped : Edge skipped pending

-- A row keeps its identity, and its state or follows an arrow.
pub record Move (a b : Row) : Type 0 where
  pub same_id : a.id ≡ b.id
  pub same_name : a.filename ≡ b.filename
  pub edge : (a.state ≡ b.state) ⊎ Edge a.state b.state

pub stay : (r : Row) → Move r r
stay r = record { same_id = refl; same_name = refl; edge = inl refl }

pub ruleset edges = (
  pick, complete, give_back, exhaust, vanish, vanish_failed, retried, skip_pending, skip_failed,
  unskipped,
)

-- A statement's rows move when its written rows do.
pub write_Moves :
    (p : Row → Bool) (f : Row → Row) (t : Table)
    → ((r : Row) → p r ≡ true → Move r (f r))
    → Rows Move t (update p f t)
write_Moves p f t h = update-Rows Move p f stay h t

pub nothing_Moves : (t : Table) → Rows Move t t
nothing_Moves [] = Rows.none_left
nothing_Moves (r ∷ t) = Rows.row (stay r) (nothing_Moves t)

module _ (names : List Text) where
  abbrev unfinished : Row → Bool
  unfinished r = is_state pending r || is_state failed r

  skip-Move : (r : Row) → (named names r && unfinished r) ≡ true → Move r (skip_by_user r)
  skip-Move r h = record { same_id = refl; same_name = refl; edge = grind (arith, edges) }

  geofence-Move :
      (r : Row)
      → (named names r && is_state pending r && is_none r.geofence_released_at) ≡ true
      → Move r (skip_by_geofence r)
  geofence-Move r h = record { same_id = refl; same_name = refl; edge = grind (arith, edges) }

abbrev pub with_priority : ℤ → Row → Row
with_priority q r = record r { priority = q }

pub skip-Moves : (names : List Text) (t : Table) → Rows Move t (skip names t).0
unfolding skip
skip-Moves [] t = nothing_Moves t
skip-Moves (n ∷ names) t =
    write_Moves (λ r. named (n ∷ names) r && unfinished names r) skip_by_user t
      (skip-Move (n ∷ names))

pub geofence_skip-Moves : (names : List Text) (t : Table) → Rows Move t (geofence_skip names t).0
unfolding geofence_skip
geofence_skip-Moves [] t = nothing_Moves t
geofence_skip-Moves (n ∷ names) t =
    write_Moves (λ r. named (n ∷ names) r && is_state pending r && is_none r.geofence_released_at)
      skip_by_geofence t (geofence-Move (n ∷ names))

priority-Move : (q : ℤ) (r : Row) → Move r (with_priority q r)
priority-Move q r = record { same_id = refl; same_name = refl; edge = inl refl }

pub prioritize_recent_hours-Moves :
    (now hours : ℕ) (t : Table) → Rows Move t (prioritize_recent_hours now hours t).0
unfolding prioritize_recent_hours
prioritize_recent_hours-Moves now hours t = elim (Bool-cases (hours == 0)) [
  | inl early ↦ rw early (nothing_Moves t)
  | inr some_hours ↦ rw some_hours (
      write_Moves (λ r. is_state pending r && recorded_since (now - hours * 3600) r)
        (with_priority (extreme max_ℤ t +ℤ pos 1)) t
        (λ r h. priority-Move (extreme max_ℤ t +ℤ pos 1) r))
]

pub retry_failed-Moves : (t : Table) → Rows Move t (retry_failed t).0
unfolding retry_failed
retry_failed-Moves t = write_Moves (is_state failed) requeue t (λ r h.
    let e : (r.state ≡ failed) = ground arith in
    record { same_id = refl; same_name = refl; edge = inr (rw e retried) })

pub unskip_geofence-Moves : (t : Table) → Rows Move t (unskip_geofence t).0
unfolding unskip_geofence
unskip_geofence-Moves t =
    write_Moves
      (λ r. is_state skipped r && is_geofence r.skip_reason && is_none r.geofence_released_at)
      unskip_row t
      (λ r h.
        let e : (r.state ≡ skipped) = ground arith in
        record { same_id = refl; same_name = refl; edge = inr (rw e unskipped) })

pub recover-Moves : (t : Table) → Rows Move t (reconcile_orphan_downloads t).0
unfolding reconcile_orphan_downloads
recover-Moves t = write_Moves (is_state downloading) to_pending t (λ r h.
    let e : (r.state ≡ downloading) = ground arith in
    record { same_id = refl; same_name = refl; edge = inr (rw e give_back) })
