-- ===== src/Queue/Machine/Commands.antt =====
-- The requests of web/services/queue.py that move rows between states, against the state machine.
use viofosync.Prelude.{ℕ, ◌≡◌, refl, sym, ◌∙◌, ◌⊎◌, inl, inr, ◌&&◌, List, [], ◌∷◌, arith}
use viofosync.Prelude.Text.{Text}
use viofosync.Queue.Table.{update, Rows, update-Rows, Rows-comp, Rows-imp}
use viofosync.Queue.Row.{State, pending, failed, skipped, Row, Table, is_state, named}
use viofosync.Queue.Ops.{
  reconcile_orphan_downloads, prioritize, prioritize_recent_hours, Position, retry, retry_failed,
  skip, unskip, geofence_skip, unskip_geofence, download_next, top, request, release, requeue,
  target_priority,
}
use viofosync.Queue.Machine.{
  Edge, retried, unskipped, Move, skip-Moves, geofence_skip-Moves, prioritize_recent_hours-Moves,
  retry_failed-Moves, unskip_geofence-Moves, recover-Moves, with_priority,
}

-- Statements that at most return a row to `pending`, which compose.
record Requeued (a b : Row) : Type 0 where
  same_id : a.id ≡ b.id
  same_name : a.filename ≡ b.filename
  back : (a.state ≡ b.state) ⊎ ((b.state ≡ pending) × Edge a.state pending)

same : (r : Row) → Requeued r r
same r = record { same_id = refl; same_name = refl; back = inl refl }

nothing : (t : Table) → Rows Requeued t t
nothing [] = Rows.none_left
nothing (r ∷ t) = Rows.row (same r) (nothing t)

no_loop : {s : State} → s ≡ pending → Edge s pending → ⊥
no_loop e Edge.give_back = cc
no_loop e retried = cc
no_loop e unskipped = cc

Requeued-trans : (a b c : Row) → Requeued a b → Requeued b c → Requeued a c
Requeued-trans a b c h k = record {
  same_id = h.same_id ∙ k.same_id;
  same_name = h.same_name ∙ k.same_name;
  back = join h.back k.back;
}
  where
    join :
        (a.state ≡ b.state) ⊎ ((b.state ≡ pending) × Edge a.state pending)
        → (b.state ≡ c.state) ⊎ ((c.state ≡ pending) × Edge b.state pending)
        → (a.state ≡ c.state) ⊎ ((c.state ≡ pending) × Edge a.state pending)
    join (inl e) (inl f) = inl (e ∙ f)
    join (inl e) (inr (p, g)) = inr (p, rw e g)
    join (inr (p, g)) (inl f) = inr (sym f ∙ p, g)
    join (inr (p, g)) (inr (q, g')) = absurd (no_loop p g')

Move-of_Requeued : (a b : Row) → Requeued a b → Move a b
Move-of_Requeued a b h = record {
  same_id = h.same_id;
  same_name = h.same_name;
  edge = elim h.back [ inl e ↦ inl e | inr (p, g) ↦ inr (rw p g) ];
}

unskip-Requeued : (now : ℕ) (names : List Text) (t : Table) → Rows Requeued t (unskip now names t).0
unfolding unskip
unskip-Requeued now [] t = nothing t
unskip-Requeued now (n ∷ names) t =
    update-Rows Requeued (λ r. named (n ∷ names) r && is_state skipped r) (release now) same
      (λ r h.
        let e : (r.state ≡ skipped) = ground arith in
        record { same_id = refl; same_name = refl; back = inr (refl, rw e unskipped) })
      t

retry-Requeued : (names : List Text) (t : Table) → Rows Requeued t (retry names t).0
unfolding retry
retry-Requeued [] t = nothing t
retry-Requeued (n ∷ names) t =
    update-Rows Requeued (λ r. named (n ∷ names) r && is_state failed r) requeue same
      (λ r h.
        let e : (r.state ≡ failed) = ground arith in
        record { same_id = refl; same_name = refl; back = inr (refl, rw e retried) })
      t

prioritize-Requeued :
    (names : List Text) (q : Position) (t : Table) → Rows Requeued t (prioritize names q t).0
unfolding prioritize
prioritize-Requeued [] q t = nothing t
prioritize-Requeued (n ∷ names) q t =
    update-Rows Requeued (λ r. named (n ∷ names) r && is_state pending r)
      (with_priority (target_priority q t)) same
      (λ r h. record { same_id = refl; same_name = refl; back = inl refl }) t

download_next-Requeued :
    (now : ℕ) (names : List Text) (t : Table) → Rows Requeued t (download_next now names t).0
unfolding download_next
download_next-Requeued now [] t = nothing t
download_next-Requeued now (n ∷ names) t =
    let t1 = (unskip now (n ∷ names) t).0 in
    let t2 = (retry (n ∷ names) t1).0 in
    let asked = λ (r : Row). named (n ∷ names) r && is_state pending r in
    let marked =
      update-Rows Requeued asked (request now) same
        (λ r h. record { same_id = refl; same_name = refl; back = inl refl }) t2 in
    Rows-comp Requeued-trans (unskip-Requeued now (n ∷ names) t) (
      Rows-comp Requeued-trans (retry-Requeued (n ∷ names) t1) (
        Rows-comp Requeued-trans marked
          (prioritize-Requeued (n ∷ names) top (update asked (request now) t2))))

-- The statements that requests and sweeps make on the states of rows, and the recovery at start;
-- those of a delete or a lock, which write the archive or the camera too, are in Deletion.
pub data Command : Type 0 where
  skip_clips unskip_clips retry_clips next_clips geofence_clips : List Text → Command
  move_clips : List Text → Position → Command
  move_recent : (hours : ℕ) → Command
  retry_all unskip_geofenced recover : Command

unfoldable pub perform : ℕ → Command → Table → Table
perform now (skip_clips names) t = (skip names t).0
perform now (unskip_clips names) t = (unskip now names t).0
perform now (retry_clips names) t = (retry names t).0
perform now (next_clips names) t = (download_next now names t).0
perform now (geofence_clips names) t = (geofence_skip names t).0
perform now (move_clips names position) t = (prioritize names position t).0
perform now (move_recent hours) t = (prioritize_recent_hours now hours t).0
perform now retry_all t = (retry_failed t).0
perform now unskip_geofenced t = (unskip_geofence t).0
perform now recover t = (reconcile_orphan_downloads t).0

moves : {t u : Table} → Rows Requeued t u → Rows Move t u
moves = Rows-imp Move-of_Requeued

-- Each of these ten statements (skip, unskip, retry, download next, skip by the geofence, move,
-- move the recent ones, retry all that failed, unskip all that the geofence skipped, and the recovery
-- of orphans at start) keeps the rows, their ids and names, and moves each row along an arrow of the
-- state machine or leaves its state as it was, whatever the queue holds. The deletes and the locks,
-- which are other requests, are not among them.
pub perform-Moves : (now : ℕ) (c : Command) (t : Table) → Rows Move t (perform now c t)
unfolding perform
perform-Moves now (skip_clips names) t = skip-Moves names t
perform-Moves now (unskip_clips names) t = moves (unskip-Requeued now names t)
perform-Moves now (retry_clips names) t = moves (retry-Requeued names t)
perform-Moves now (next_clips names) t = moves (download_next-Requeued now names t)
perform-Moves now (geofence_clips names) t = geofence_skip-Moves names t
perform-Moves now (move_clips names position) t = moves (prioritize-Requeued names position t)
perform-Moves now (move_recent hours) t = prioritize_recent_hours-Moves now hours t
perform-Moves now retry_all t = retry_failed-Moves t
perform-Moves now unskip_geofenced t = unskip_geofence-Moves t
perform-Moves now recover t = recover-Moves t
