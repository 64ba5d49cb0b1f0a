-- ===== src/Queue/Reconcile/Ids.antt =====
-- The PRIMARY KEY through `reconcile`: an insert takes an id that no row has.
use viofosync.Prelude.{
  ℕ, ◌≤◌, ◌≡◌, refl, inl, inr, false, not, ◌&&◌, ◌||◌, List, [], ◌∷◌, ◌++◌, Option, none, some,
  arith, ==_iff, any, select, Bool-cases,
}
use viofosync.Prelude.Text.{Text}
use viofosync.Queue.Keys.{keyed, Unique, update-Unique, append-Unique}
use viofosync.Queue.Row.{Row, Table, State, pending, done, gone, is_state}
use viofosync.Queue.Ops.{finish}
use viofosync.Queue.Reconcile.{
  Recording, Summary, Index, Progress, remote_by_name, listed, contains, find, has_name, next_id,
  new_row, revive, or_else, tracked, is_empty, is_stale, vanish, no_changes, visit, visit_held,
  visit_wanted, visit_all, vanish_one, vanish_all, reconcile,
}

abbrev row_id : Row → ℕ
row_id r = r.id

fresh_id : (k : ℕ) (t : Table) → next_id t ≤ k → any (keyed row_id k) t ≡ false
unfolding next_id
fresh_id k [] h = refl
fresh_id k (r ∷ t) h = ground (arith, ==_iff r.id k, fresh_id k t)

insert-UniqueIds :
    (t : Table) (state : State) (finished : Option ℕ) (now : ℕ) (g : Text) (rec : Recording)
    → Unique row_id t
    → Unique row_id (t ++ new_row state finished now (next_id t) g rec ∷ [])
insert-UniqueIds t state finished now g rec u =
    append-Unique row_id (new_row state finished now (next_id t) g rec) t
      (unfold new_row in fresh_id (next_id t) t (omega arith)) u

module _ (now : ℕ) (g : Text) (rec : Recording) (t : Table) (s : Summary)
    (u : Unique row_id t) where
  held-UniqueIds : (old : Option Row) → Unique row_id (visit_held now g rec old (t, s)).0
  unfolding visit_held
  held-UniqueIds none = insert-UniqueIds t done (some now) now g rec u
  held-UniqueIds (some r) = elim (Bool-cases (tracked r || is_state gone r)) [
    | inl old ↦ rw old (update-Unique row_id (has_name g) (finish now) (λ r. refl) t u)
    | inr fine ↦ rw fine u
  ]

  wanted-UniqueIds : (old : Option Row) → Unique row_id (visit_wanted now g rec old (t, s)).0
  unfolding visit_wanted revive
  wanted-UniqueIds none = insert-UniqueIds t pending none now g rec u
  wanted-UniqueIds (some r) = elim (Bool-cases (is_state gone r)) [
    | inl lost ↦ rw lost (
        update-Unique row_id (has_name g) (revive (or_else rec.filepath r.source_dir)) (λ r. refl) t
          u)
    | inr kept ↦ elim (Bool-cases (is_stale rec.filepath r)) [
      | inl stale ↦
          rw (kept, stale)
            (update-Unique row_id (has_name g) (λ r. record r { source_dir = rec.filepath })
              (λ r. refl) t u)
      | inr fresh ↦ rw (kept, fresh) u
    ]
  ]

  visit-UniqueIds :
      (present : List Text) (existing : Table)
      → Unique row_id (visit now present existing g rec (t, s)).0
  unfolding visit
  visit-UniqueIds present existing = elim (Bool-cases (contains present g)) [
    | inl disk ↦ rw disk (held-UniqueIds (find g existing))
    | inr absent ↦ rw absent (wanted-UniqueIds (find g existing))
  ]

visit_all-UniqueIds :
    (now : ℕ) (present : List Text) (existing : Table) (m : Index) (p : Progress)
    → Unique row_id p.0
    → Unique row_id (visit_all now present existing m p).0
unfolding visit_all
visit_all-UniqueIds now present existing [] p u = u
visit_all-UniqueIds now present existing ((g, rec) ∷ m) (t, s) u =
    visit_all-UniqueIds now present existing m _ (visit-UniqueIds now g rec t s u present existing)

vanish_all-UniqueIds :
    (now : ℕ) (m : Index) (es : List Row) (p : Progress)
    → Unique row_id p.0
    → Unique row_id (vanish_all now m es p).0
unfolding vanish_all vanish_one
vanish_all-UniqueIds now m [] p u = u
vanish_all-UniqueIds now m (e ∷ es) (t, s) u =
    vanish_all-UniqueIds now m es (vanish_one now m e (t, s))
      (elim (Bool-cases (listed e.filename m)) [
        | inl kept ↦ rw kept u
        | inr lost ↦
            rw lost (update-Unique row_id (has_name e.filename) (vanish now) (λ r. refl) t u)
      ])

-- The statements of `reconcile` never give two rows one id.
pub reconcile-UniqueIds :
    (now : ℕ) (recordings : List Recording) (present : List Text) (t : Table)
    → Unique row_id t
    → Unique row_id (reconcile now recordings present t).0
unfolding reconcile
reconcile-UniqueIds now recordings present t u =
    let m = remote_by_name recordings in
    let first = visit_all-UniqueIds now present t m (t, no_changes) u in
    elim (Bool-cases (is_empty m && not (is_empty (select tracked t)))) [
      | inl spared ↦ rw spared first
      | inr proceed ↦ rw proceed (vanish_all-UniqueIds now m (select tracked t) _ first)
    ]
