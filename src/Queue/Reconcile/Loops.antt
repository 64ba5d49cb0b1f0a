-- ===== src/Queue/Reconcile/Loops.antt =====
-- The two loops of `reconcile`, seen from one name.
use mathlib.Core.Option.{some-ne-none}
use viofosync.Prelude.{
  ℕ, ◌≡◌, refl, ◌∙◌, inl, inr, false, not, ◌&&◌, ◌||◌, List, [], ◌∷◌, Option, none, some, arith,
  if◌then◌else◌, any, Bool-cases,
}
use viofosync.Prelude.Text.{Text, text_eq, text_eq_iff, text_eq_refl, eq_of_text_eq, text_eq_sym}
use viofosync.Queue.Row.{pending, done, gone, Row, Table, is_state}
use viofosync.Queue.Ops.{finish}
use viofosync.Queue.Reconcile.{
  Recording, Summary, Index, put, index_from, remote_by_name, listed, contains, find, revive,
  tracked, is_stale, vanish, vanish_one, Progress, visit, visit_held, visit_wanted, visit_all,
  vanish_all, next_id,
}
use viofosync.Queue.Reconcile.Spec.{
  lookup, listed_row, find-update, find-update_other, find-insert_new, visit_self,
}

-- The index has each name once.
abbrev pub UniqueKeys : Index → Type 0
UniqueKeys [] = Unit
UniqueKeys ((k, rec) ∷ m) = (lookup k m ≡ none) × UniqueKeys m

pub lookup-put :
    (f k : Text) (rec : Recording) (m : Index)
    → lookup f (put k rec m) ≡ (if text_eq k f then some rec else lookup f m)
unfolding lookup put
lookup-put f k rec [] = refl
lookup-put f k rec ((j, old) ∷ m) =
    ground (arith, text_eq_iff j k, text_eq_iff j f, text_eq_iff k f, lookup-put f k rec m)

put-UniqueKeys : (k : Text) (rec : Recording) (m : Index) → UniqueKeys m → UniqueKeys (put k rec m)
unfolding put
put-UniqueKeys k rec [] u = (unfold lookup in refl, tt)
put-UniqueKeys k rec ((j, old) ∷ m) u = elim (Bool-cases (text_eq j k)) [
  | inl same ↦ rw same u
  | inr other ↦
      rw other (lookup-put j k rec m ∙ rw (text_eq_sym k j, other) u.0, put-UniqueKeys k rec m u.1)
]

index_from-UniqueKeys :
    (m : Index) (recs : List Recording) → UniqueKeys m → UniqueKeys (index_from m recs)
unfolding index_from
index_from-UniqueKeys m [] u = u
index_from-UniqueKeys m (rec ∷ recs) u =
    index_from-UniqueKeys (put rec.filename rec m) recs (put-UniqueKeys rec.filename rec m u)

pub remote_by_name-UniqueKeys : (recs : List Recording) → UniqueKeys (remote_by_name recs)
unfolding remote_by_name
remote_by_name-UniqueKeys recs = index_from-UniqueKeys [] recs tt

module _ (now : ℕ) (f g : Text) (rec : Recording) (t : Table) (s : Summary)
    (other : text_eq g f ≡ false) where
  held-other : (old : Option Row) → find f (visit_held now g rec old (t, s)).0 ≡ find f t
  unfolding visit_held
  held-other none = find-insert_new f g t done (some now) now (next_id t) rec other
  held-other (some r) = elim (Bool-cases (tracked r || is_state gone r)) [
    | inl old ↦ rw old (find-update_other f g (finish now) t (λ r. refl) other)
    | inr fine ↦ rw fine refl
  ]

  wanted-other : (old : Option Row) → find f (visit_wanted now g rec old (t, s)).0 ≡ find f t
  unfolding visit_wanted
  wanted-other none = find-insert_new f g t pending none now (next_id t) rec other
  wanted-other (some r) = elim (Bool-cases (is_state gone r)) [
    | inl lost ↦ rw lost (find-update_other f g (revive _) t (unfold revive in λ r. refl) other)
    | inr kept ↦ elim (Bool-cases (is_stale rec.filepath r)) [
      | inl stale ↦
          rw (kept, stale)
            (find-update_other f g (λ r. record r { source_dir = rec.filepath }) t (λ r. refl)
              other)
      | inr fresh ↦ rw (kept, fresh) refl
    ]
  ]

  pub visit-other :
      (present : List Text) (existing : Table)
      → find f (visit now present existing g rec (t, s)).0 ≡ find f t
  unfolding visit
  visit-other present existing = elim (Bool-cases (contains present g)) [
    | inl disk ↦ rw disk (held-other (find g existing))
    | inr absent ↦ rw absent (wanted-other (find g existing))
  ]

module _ (now : ℕ) (present : List Text) (existing : Table) (f : Text) where
  untouched :
      (m : Index) (p : Progress)
      → lookup f m ≡ none
      → find f (visit_all now present existing m p).0 ≡ find f p.0
  unfolding visit_all lookup
  untouched [] p h = refl
  untouched ((g, rec) ∷ m) p h = elim (Bool-cases (text_eq g f)) [
    | inl same ↦ absurd (some-ne-none rec (rw same at h))
    | inr other ↦
        untouched m (visit now present existing g rec p) (rw other at h)
        ∙ visit-other now f g rec p.0 p.1 other present existing
  ]

  -- The row of a name after the first loop, from its row before.
  abbrev After : Index → Option Row → Type 0
  After m new =
      (id : ℕ) × (new ≡ elim (lookup f m) [
        | some rec ↦ some (listed_row now id present f rec (find f existing))
        | none ↦ find f existing
      ])

  pub visit_all-find :
      (m : Index) (p : Progress)
      → UniqueKeys m
      → find f p.0 ≡ find f existing
      → After m (find f (visit_all now present existing m p).0)
  unfolding visit_all lookup
  visit_all-find [] p u e = (0, e)
  visit_all-find ((g, rec) ∷ m) (t, s) (u, us) e = elim (Bool-cases (text_eq g f)) [
    | inl same ↦
        let here = eq_of_text_eq g f same in
        (
          next_id t,
          rw (here, text_eq_refl f)
              (untouched m _ (rw here at u) ∙ visit_self now f rec t s present existing e),
        )
    | inr other ↦
        rw other (visit_all-find m _ us (visit-other now f g rec t s other present existing ∙ e))
  ]

abbrev pub vanished : ℕ → Option Row → Option Row
vanished now none = none
vanished now (some r) = some (vanish now r)

vanish_one-find :
    (now : ℕ) (m : Index) (f : Text) (e : Row) (p : Progress)
    → find f (vanish_one now m e p).0
      ≡ (if text_eq e.filename f && not (listed f m) then vanished now (find f p.0) else find f p.0)
unfolding vanish_one
vanish_one-find now m f e (t, s) =
    ground (arith, find-update f e.filename (vanish now) t (λ r. refl), text_eq_iff e.filename f)

-- The second loop marks the row of a name when the name is among the rows and not listed.
pub vanish_all-find :
    (now : ℕ) (m : Index) (f : Text) (es : List Row) (p : Progress)
    → find f (vanish_all now m es p).0 ≡ (
        if any (λ e. text_eq e.filename f) es && not (listed f m)
        then vanished now (find f p.0)
        else find f p.0)
unfolding vanish_all
vanish_all-find now m f [] p = refl
vanish_all-find now m f (e ∷ es) p =
    ground (arith, vanish_one-find now m f e p, vanish_all-find now m f es (vanish_one now m e p))
