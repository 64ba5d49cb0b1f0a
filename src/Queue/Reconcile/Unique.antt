-- ===== src/Queue/Reconcile/Unique.antt =====
-- The UNIQUE constraint on `filename` through `reconcile`.
use mathlib.Core.Option.{none-ne-some}
use viofosync.Prelude.{
  ℕ, ◌≡◌, refl, sym, ◌∙◌, inl, inr, Bool, false, not, ◌&&◌, ◌||◌, List, [], ◌∷◌, ◌++◌, Option, none,
  some, arith, select, Bool-cases,
}
use viofosync.Prelude.Text.{Text, text_eq, text_eq_refl, eq_of_text_eq, text_eq_sym}
use viofosync.Queue.Table.{update}
use viofosync.Queue.Row.{Row, Table, pending, gone, done, State, is_state}
use viofosync.Queue.Ops.{finish}
use viofosync.Queue.Reconcile.{
  Recording, Summary, Index, remote_by_name, listed, contains, find, has_name, next_id, new_row,
  revive, tracked, is_empty, is_stale, vanish, no_changes, Progress, visit, visit_held,
  visit_wanted, visit_all, vanish_one, vanish_all, reconcile,
}
use viofosync.Queue.Reconcile.Spec.{lookup, find-insert}
use viofosync.Queue.Reconcile.Loops.{UniqueKeys, remote_by_name-UniqueKeys, visit-other}
use viofosync.Queue.Reconcile.Refinement.{UniqueNames}

-- A statement that keeps the names keeps them unique.
find-update-none :
    (f : Text) (p : Row → Bool) (h : Row → Row) (t : Table)
    → ((r : Row) → (h r).filename ≡ r.filename)
    → find f t ≡ none
    → find f (update p h t) ≡ none
unfolding find update
find-update-none f p h [] keep e = refl
find-update-none f p h (r ∷ t) keep e = ground (arith, keep r, find-update-none f p h t keep)

pub update-UniqueNames :
    (p : Row → Bool) (h : Row → Row) (t : Table)
    → ((r : Row) → (h r).filename ≡ r.filename)
    → UniqueNames t
    → UniqueNames (update p h t)
unfolding update
update-UniqueNames p h [] keep u = tt
update-UniqueNames p h (r ∷ t) keep (u, us) = (
  elim (Bool-cases (p r)) [
    | inl e ↦ rw (e, keep r) (find-update-none r.filename p h t keep u)
    | inr e ↦ rw e (find-update-none r.filename p h t keep u)
  ],
  update-UniqueNames p h t keep us,
)

find-cons_none :
    (f : Text) (s : Row) (t : Table)
    → find f (s ∷ t) ≡ none
    → (text_eq s.filename f ≡ false) × (find f t ≡ none)
unfolding find
find-cons_none f s t e = ground arith

find-snoc_none :
    (f : Text) (t : Table) (r : Row)
    → find f t ≡ none
    → text_eq r.filename f ≡ false
    → find f (t ++ r ∷ []) ≡ none
find-snoc_none f t r e other = rw (find-insert f t r, e, other) refl

insert-UniqueNames :
    (t : Table) (r : Row) → find r.filename t ≡ none → UniqueNames t → UniqueNames (t ++ r ∷ [])
insert-UniqueNames [] r e u = (unfold find in refl, tt)
insert-UniqueNames (s ∷ t) r e (u, us) =
    let (other, absent) = find-cons_none r.filename s t e in
    (
      find-snoc_none s.filename t r u (text_eq_sym r.filename s.filename ∙ other),
      insert-UniqueNames t r absent us,
    )

new_row-UniqueNames :
    (t : Table) (state : State) (finished : Option ℕ) (now id : ℕ) (g : Text) (rec : Recording)
    → find g t ≡ none
    → UniqueNames t
    → UniqueNames (t ++ new_row state finished now id g rec ∷ [])
new_row-UniqueNames t state finished now id g rec e u =
    insert-UniqueNames t (new_row state finished now id g rec) (unfold new_row in e) u

module _ (now : ℕ) (g : Text) (rec : Recording) (t : Table) (s : Summary) (u : UniqueNames t) where
  held-UniqueNames :
      (old : Option Row) → find g t ≡ old → UniqueNames (visit_held now g rec old (t, s)).0
  unfolding visit_held
  held-UniqueNames none e = new_row-UniqueNames t done (some now) now (next_id t) g rec e u
  held-UniqueNames (some r) e = elim (Bool-cases (tracked r || is_state gone r)) [
    | inl old ↦ rw old (update-UniqueNames (has_name g) (finish now) t (λ r. refl) u)
    | inr fine ↦ rw fine u
  ]

  wanted-UniqueNames :
      (old : Option Row) → find g t ≡ old → UniqueNames (visit_wanted now g rec old (t, s)).0
  unfolding visit_wanted
  wanted-UniqueNames none e = new_row-UniqueNames t pending none now (next_id t) g rec e u
  wanted-UniqueNames (some r) e = elim (Bool-cases (is_state gone r)) [
    | inl lost ↦
        rw lost (update-UniqueNames (has_name g) (revive _) t (unfold revive in λ r. refl) u)
    | inr kept ↦ elim (Bool-cases (is_stale rec.filepath r)) [
      | inl stale ↦
          rw (kept, stale)
            (update-UniqueNames (has_name g) (λ r. record r { source_dir = rec.filepath }) t
              (λ r. refl) u)
      | inr fresh ↦ rw (kept, fresh) u
    ]
  ]

  visit-UniqueNames :
      (present : List Text) (existing : Table)
      → find g t ≡ find g existing
      → UniqueNames (visit now present existing g rec (t, s)).0
  unfolding visit
  visit-UniqueNames present existing e = elim (Bool-cases (contains present g)) [
    | inl disk ↦ rw disk (held-UniqueNames (find g existing) e)
    | inr absent ↦ rw absent (wanted-UniqueNames (find g existing) e)
  ]

lookup-head : (g : Text) (rec : Recording) (m : Index) → lookup g ((g, rec) ∷ m) ≡ some rec
unfolding lookup
lookup-head g rec m = rw (text_eq_refl g) refl

lookup-later :
    (f g : Text) (rec new : Recording) (m : Index)
    → lookup g m ≡ none
    → lookup f m ≡ some new
    → (text_eq g f ≡ false) × (lookup f ((g, rec) ∷ m) ≡ some new)
unfolding lookup
lookup-later f g rec new m none_left later = elim (Bool-cases (text_eq g f)) [
  | inl same ↦ absurd (none-ne-some new (sym (rw (eq_of_text_eq g f same) at none_left) ∙ later))
  | inr other ↦ (other, rw other later)
]

-- The names still to be visited have the rows that they had before.
abbrev Waiting : Table → Index → Table → Type 0
Waiting existing m t =
    (f : Text) (rec : Recording) → lookup f m ≡ some rec → find f t ≡ find f existing

visit_all-UniqueNames :
    (now : ℕ) (present : List Text) (existing : Table) (m : Index) (p : Progress)
    → UniqueKeys m
    → Waiting existing m p.0
    → UniqueNames p.0
    → UniqueNames (visit_all now present existing m p).0
unfolding visit_all
visit_all-UniqueNames now present existing [] p k w u = u
visit_all-UniqueNames now present existing ((g, rec) ∷ m) (t, s) (k, ks) w u =
    visit_all-UniqueNames now present existing m _ ks
      (λ f new later.
        let (other, at_f) = lookup-later f g rec new m k later in
        visit-other now f g rec t s other present existing ∙ w f new at_f)
      (visit-UniqueNames now g rec t s u present existing (w g rec (lookup-head g rec m)))

vanish_one-UniqueNames :
    (now : ℕ) (m : Index) (e : Row) (p : Progress)
    → UniqueNames p.0
    → UniqueNames (vanish_one now m e p).0
unfolding vanish_one
vanish_one-UniqueNames now m e (t, s) u = elim (Bool-cases (listed e.filename m)) [
  | inl kept ↦ rw kept u
  | inr lost ↦ rw lost (update-UniqueNames (has_name e.filename) (vanish now) t (λ r. refl) u)
]

vanish_all-UniqueNames :
    (now : ℕ) (m : Index) (es : List Row) (p : Progress)
    → UniqueNames p.0
    → UniqueNames (vanish_all now m es p).0
unfolding vanish_all
vanish_all-UniqueNames now m [] p u = u
vanish_all-UniqueNames now m (e ∷ es) p u =
    vanish_all-UniqueNames now m es (vanish_one now m e p) (vanish_one-UniqueNames now m e p u)

-- The statements of `reconcile` never violate the UNIQUE constraint on `filename`: a table whose
-- names are unique has unique names afterwards, for any listing, even one that repeats a name.
pub reconcile-UniqueNames :
    (now : ℕ) (recordings : List Recording) (present : List Text) (t : Table)
    → UniqueNames t
    → UniqueNames (reconcile now recordings present t).0
unfolding reconcile
reconcile-UniqueNames now recordings present t u =
    let m = remote_by_name recordings in
    let first =
      visit_all-UniqueNames now present t m (t, no_changes) (remote_by_name-UniqueKeys recordings)
        (λ f rec e. refl) u in
    elim (Bool-cases (is_empty m && not (is_empty (select tracked t)))) [
      | inl spared ↦ rw spared first
      | inr proceed ↦ rw proceed (vanish_all-UniqueNames now m (select tracked t) _ first)
    ]
