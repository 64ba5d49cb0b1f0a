-- ===== src/Queue/Reconcile/Refinement.antt =====
-- `reconcile` against its specification by name.
use viofosync.Prelude.{
  ℕ, ◌≡◌, refl, sym, ◌∙◌, ap, inl, inr, true, false, not, ◌&&◌, List, [], ◌∷◌, Option, none, some,
  arith, if◌then◌else◌, select, any, Bool-cases, Option-cases, length,
}
use viofosync.Prelude.Text.{Text, text_eq, eq_of_text_eq}
use viofosync.Queue.Row.{Row, Table}
use viofosync.Queue.Reconcile.{
  Recording, Summary, Index, remote_by_name, listed, find, tracked, is_empty, no_changes, Progress,
  visit_all, vanish_all, reconcile,
}
use viofosync.Queue.Reconcile.Spec.{lookup, listed_row, unlisted_row, reconciled}
use viofosync.Queue.Reconcile.Loops.{
  remote_by_name-UniqueKeys, visit_all-find, vanish_all-find, vanished,
}

-- The UNIQUE constraint on `filename`.
abbrev pub UniqueNames : Table → Type 0
UniqueNames [] = Unit
UniqueNames (r ∷ t) = (find r.filename t ≡ none) × UniqueNames t

pub listed-lookup :
    (f : Text) (m : Index) → listed f m ≡ elim (lookup f m) [ none ↦ false | some rec ↦ true ]
unfolding listed lookup
listed-lookup f [] = refl
listed-lookup f ((k, rec) ∷ m) = ground (arith, listed-lookup f m)

no_other :
    (f : Text) (t : Table)
    → find f t ≡ none
    → any (λ e. text_eq e.filename f) (select tracked t) ≡ false
unfolding find
no_other f [] h = refl
no_other f (r ∷ t) h = ground (arith, no_other f t)

-- A name is among the tracked rows when the row found for it is tracked.
tracked-find :
    (f : Text) (t : Table)
    → UniqueNames t
    → any (λ e. text_eq e.filename f) (select tracked t)
      ≡ elim (find f t) [ none ↦ false | some r ↦ tracked r ]
unfolding find
tracked-find f [] u = refl
tracked-find f (r ∷ t) (u, us) = elim (Bool-cases (text_eq r.filename f)) [
  | inl same ↦ ground (arith, no_other f t (rw (eq_of_text_eq _ _ same) at u))
  | inr other ↦ ground (arith, tracked-find f t us)
]

-- What the second loop leaves of a row that the first did not touch.
unlisted_lem :
    (now : ℕ) (m : Index) (old : Option Row)
    → is_empty m ≡ false
    → (if elim old [ none ↦ false | some r ↦ tracked r ] then vanished now old else old)
      ≡ unlisted_row now m old
unfolding unlisted_row
unlisted_lem now m none h = refl
unlisted_lem now m (some r) h = ground arith

module _ (now : ℕ) (present : List Text) (t : Table) (f : Text) (m : Index) (s : Summary)
    (t' : Table) (u : UniqueNames t) where
  second_loop :
      (id : ℕ)
      → find f t' ≡ elim (lookup f m) [
        | some rec ↦ some (listed_row now id present f rec (find f t))
        | none ↦ find f t
      ]
      → is_empty m ≡ false
      → find f (vanish_all now m (select tracked t) (t', s)).0
        ≡ reconciled now id present m f (find f t)
  unfolding reconciled
  second_loop id e full = elim (Option-cases (lookup f m)) [
    | inl absent ↦ ground (
      arith,
      vanish_all-find now m f (select tracked t) (t', s),
      listed-lookup f m,
      tracked-find f t u,
      unlisted_lem now m (find f t) full,
    )
    | inr (rec, here) ↦
        ground (arith, vanish_all-find now m f (select tracked t) (t', s), listed-lookup f m)
  ]

empty_first :
    (now : ℕ) (present : List Text) (t : Table) (m : Index)
    → is_empty m ≡ true
    → visit_all now present t m (t, no_changes) ≡ (t, no_changes)
unfolding visit_all
empty_first now present t [] h = refl
empty_first now present t (k ∷ m) h = cc

empty_row :
    (now id : ℕ) (present : List Text) (f : Text) (m : Index) (old : Option Row)
    → is_empty m ≡ true
    → reconciled now id present m f old ≡ old
unfolding reconciled lookup unlisted_row
empty_row now id present f [] none h = refl
empty_row now id present f [] (some r) h = ground arith
empty_row now id present f (k ∷ m) old h = cc

empty_rest :
    (rows : Table) (now : ℕ) (m : Index) (p : Progress)
    → is_empty rows ≡ true
    → vanish_all now m rows p ≡ p
unfolding vanish_all
empty_rest [] now m p h = refl
empty_rest (r ∷ rows) now m p h = cc

reconcile_nothing :
    (now : ℕ) (recordings : List Recording) (present : List Text) (t : Table)
    → is_empty (remote_by_name recordings) ≡ true
    → reconcile now recordings present t
      ≡ (t, record no_changes { gone_skipped = length (select tracked t) })
unfolding reconcile
reconcile_nothing now recordings present t h =
    rw (empty_first now present t (remote_by_name recordings) h, h) (no_rows (select tracked t))
  where
    no_rows :
        (rows : Table)
        → (if true && not (is_empty rows)
            then (t, record no_changes { gone_skipped = length rows })
            else vanish_all now (remote_by_name recordings) rows (t, no_changes))
          ≡ (t, record no_changes { gone_skipped = length rows })
    no_rows [] = empty_rest [] now (remote_by_name recordings) (t, no_changes) refl
    no_rows (r ∷ rows) = refl

-- With the UNIQUE constraint, the row that a name has after `reconcile` is the one that the
-- specification computes from its row before, whatever else the table and the listing hold.
pub reconcile-find :
    (now : ℕ) (recordings : List Recording) (present : List Text) (t : Table) (f : Text)
    → UniqueNames t
    → (id : ℕ) × (find f (reconcile now recordings present t).0
        ≡ reconciled now id present (remote_by_name recordings) f (find f t))
unfolding reconcile
reconcile-find now recordings present t f u =
    let m = remote_by_name recordings in
    let p = visit_all now present t m (t, no_changes) in
    let (id, after) =
      visit_all-find now present t f m (t, no_changes) (remote_by_name-UniqueKeys recordings)
        refl in
    elim (Bool-cases (is_empty m)) [
      | inl nothing ↦ (
        0,
        ap (λ q. find f q.0)
              (unfold reconcile in reconcile_nothing now recordings present t nothing)
            ∙ sym (empty_row now 0 present f m (find f t) nothing),
      )
      | inr full ↦ (id, rw full (second_loop now present t f m p.1 p.0 u id after full))
    ]

-- An empty listing is a failed response: whatever the queue holds, no row changes, no clip is
-- marked gone, and the tracked clips are counted as spared.
pub reconcile-empty :
    (now : ℕ) (present : List Text) (t : Table)
    → reconcile now [] present t
      ≡ (t, record no_changes { gone_skipped = length (select tracked t) })
unfolding remote_by_name
reconcile-empty now present t = reconcile_nothing now [] present t refl
