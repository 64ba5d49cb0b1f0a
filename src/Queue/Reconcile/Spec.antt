-- ===== src/Queue/Reconcile/Spec.antt =====
-- What `reconcile` does to the row of one name, and that its two loops of statements do it.
use viofosync.Prelude.{
  ℕ, ◌≡◌, refl, inl, inr, false, not, ◌&&◌, ◌||◌, List, [], ◌∷◌, ◌++◌, Option, none, some, arith,
  if◌then◌else◌, Bool-cases, Option-cases,
}
use viofosync.Prelude.Text.{Text, text_eq, text_eq_iff, text_eq_refl}
use viofosync.Queue.Table.{update}
use viofosync.Queue.Row.{State, pending, done, gone, Row, Table, is_state}
use viofosync.Queue.Ops.{finish}
use viofosync.Queue.Reconcile.{
  Recording, Summary, Index, contains, find, has_name, new_row, or_else, revive, tracked, is_empty,
  is_stale, vanish, visit, visit_held, visit_wanted, next_id,
}

-- The last recording of a name in a listing.
unfoldable pub lookup : Text → Index → Option Recording
lookup f [] = none
lookup f ((k, rec) ∷ m) = if text_eq k f then some rec else lookup f m

-- A listed name whose file is on disk; `id` is the new row's, where one is made.
unfoldable pub held_row : ℕ → ℕ → Text → Recording → Option Row → Row
held_row now id f rec none = new_row done (some now) now id f rec
held_row now id f rec (some r) = if tracked r || is_state gone r then finish now r else r

-- A listed name whose file is not on disk.
unfoldable pub wanted_row : ℕ → ℕ → Text → Recording → Option Row → Row
wanted_row now id f rec none = new_row pending none now id f rec
wanted_row now id f rec (some r) =
    if is_state gone r
    then revive (or_else rec.filepath r.source_dir) r
    else if is_stale rec.filepath r
    then record r { source_dir = rec.filepath }
    else r

unfoldable pub listed_row : ℕ → ℕ → List Text → Text → Recording → Option Row → Row
listed_row now id present f rec old =
    if contains present f then held_row now id f rec old else wanted_row now id f rec old

-- A name that is not listed. An empty listing changes nothing.
unfoldable pub unlisted_row : ℕ → Index → Option Row → Option Row
unlisted_row now m none = none
unlisted_row now m (some r) = some (if tracked r && not (is_empty m) then vanish now r else r)

unfoldable pub reconciled_by :
    ℕ → ℕ → List Text → Index → Text → Option Recording → Option Row → Option Row
reconciled_by now id present m f (some rec) old = some (listed_row now id present f rec old)
reconciled_by now id present m f none old = unlisted_row now m old

unfoldable pub reconciled : ℕ → ℕ → List Text → Index → Text → Option Row → Option Row
unfolding reconciled_by
reconciled now id present m f old = reconciled_by now id present m f (lookup f m) old

-- Statements by name, seen from one name.

pub find-update :
    (f g : Text) (h : Row → Row) (t : Table)
    → ((r : Row) → (h r).filename ≡ r.filename)
    → find f (update (has_name g) h t)
      ≡ (if text_eq g f then elim (find f t) [ none ↦ none | some r ↦ some (h r) ] else find f t)
unfolding find update has_name
find-update f g h [] keep = ground arith
find-update f g h (r ∷ t) keep = ground (
  arith,
  keep r,
  text_eq_iff r.filename g,
  text_eq_iff r.filename f,
  text_eq_iff g f,
  text_eq_iff (h r).filename f,
  find-update f g h t keep,
)

pub find-insert :
    (f : Text) (t : Table) (r : Row)
    → find f (t ++ r ∷ [])
      ≡ elim (find f t) [ some e ↦ some e | none ↦ if text_eq r.filename f then some r else none ]
unfolding find
find-insert f [] r = refl
find-insert f (e ∷ t) r = ground (arith, find-insert f t r)

new_row-name :
    (state : State) (finished : Option ℕ) (now id : ℕ) (f : Text) (rec : Recording)
    → (new_row state finished now id f rec).filename ≡ f
unfolding new_row
new_row-name state finished now id f rec = refl

find-insert_self :
    (f : Text) (t : Table) (r : Row)
    → find f t ≡ none
    → r.filename ≡ f
    → find f (t ++ r ∷ []) ≡ some r
find-insert_self f t r e same = rw (find-insert f t r, e, same, text_eq_refl f) refl

pub find-insert_new :
    (f g : Text) (t : Table) (state : State) (finished : Option ℕ) (now id : ℕ) (rec : Recording)
    → text_eq g f ≡ false
    → find f (t ++ new_row state finished now id g rec ∷ []) ≡ find f t
find-insert_new f g t state finished now id rec other =
    let r = new_row state finished now id g rec in
    elim (Option-cases (find f t)) [
      | inl e ↦ rw (find-insert f t r, e, new_row-name state finished now id g rec, other) refl
      | inr (old, e) ↦ rw (find-insert f t r, e) refl
    ]

find-update_self :
    (f : Text) (h : Row → Row) (t : Table) {r : Row}
    → ((r : Row) → (h r).filename ≡ r.filename)
    → find f t ≡ some r
    → find f (update (has_name f) h t) ≡ some (h r)
find-update_self f h t keep e = rw (find-update f f h t keep, text_eq_refl f, e) refl

pub find-update_other :
    (f g : Text) (h : Row → Row) (t : Table)
    → ((r : Row) → (h r).filename ≡ r.filename)
    → text_eq g f ≡ false
    → find f (update (has_name g) h t) ≡ find f t
find-update_other f g h t keep other = rw (find-update f g h t keep, other) refl

-- One listed name, at that name.
module _ (now : ℕ) (f : Text) (rec : Recording) (t : Table) (s : Summary) where
  held_self :
      (old : Option Row)
      → find f t ≡ old
      → find f (visit_held now f rec old (t, s)).0 ≡ some (held_row now (next_id t) f rec old)
  unfolding visit_held held_row
  held_self none e = find-insert_self f t _ e (new_row-name _ _ _ _ f rec)
  held_self (some r) e = elim (Bool-cases (tracked r || is_state gone r)) [
    | inl old ↦ rw old (find-update_self f (finish now) t (λ r. refl) e)
    | inr fine ↦ rw fine e
  ]

  wanted_self :
      (old : Option Row)
      → find f t ≡ old
      → find f (visit_wanted now f rec old (t, s)).0 ≡ some (wanted_row now (next_id t) f rec old)
  unfolding visit_wanted wanted_row
  wanted_self none e = find-insert_self f t _ e (new_row-name _ _ _ _ f rec)
  wanted_self (some r) e = elim (Bool-cases (is_state gone r)) [
    | inl lost ↦ rw lost (find-update_self f (revive _) t (unfold revive in λ r. refl) e)
    | inr kept ↦ elim (Bool-cases (is_stale rec.filepath r)) [
      | inl stale ↦
          rw (kept, stale)
            (find-update_self f (λ r. record r { source_dir = rec.filepath }) t (λ r. refl) e)
      | inr fresh ↦ rw (kept, fresh) e
    ]
  ]

  pub visit_self :
      (present : List Text) (existing : Table)
      → find f t ≡ find f existing
      → find f (visit now present existing f rec (t, s)).0
        ≡ some (listed_row now (next_id t) present f rec (find f existing))
  unfolding visit listed_row
  visit_self present existing e = elim (Bool-cases (contains present f)) [
    | inl disk ↦ rw disk (held_self (find f existing) e)
    | inr absent ↦ rw absent (wanted_self (find f existing) e)
  ]
