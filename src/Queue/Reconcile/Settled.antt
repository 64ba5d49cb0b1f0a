-- ===== src/Queue/Reconcile/Settled.antt =====
-- What `reconcile` leaves is settled: the same listing changes it no more.
use viofosync.Prelude.{
  ℕ, ◌≡◌, refl, ap, inl, inr, false, ◌||◌, List, [], ◌∷◌, Option, none, some, arith, Bool-cases,
}
use viofosync.Prelude.Text.{Text, text_eq_refl, text_eq_iff}
use viofosync.Queue.Row.{Row, pending, gone, is_state}
use viofosync.Queue.Reconcile.{
  Recording, Index, contains, new_row, or_else, revive, tracked, is_stale,
}
use viofosync.Queue.Reconcile.Spec.{
  lookup, held_row, wanted_row, listed_row, unlisted_row, reconciled_by, reconciled,
}

stale_same : (fresh : Text) (r : Row) → r.source_dir ≡ fresh → is_stale fresh r ≡ false
unfolding is_stale
stale_same fresh r e = ground (arith, text_eq_iff r.source_dir fresh)

new_fresh :
    (now id : ℕ) (f : Text) (rec : Recording)
    → (is_state gone (new_row pending none now id f rec) ≡ false)
      × (is_stale rec.filepath (new_row pending none now id f rec) ≡ false)
unfolding new_row
new_fresh now id f rec = (refl, stale_same rec.filepath _ refl)

module _ (now id : ℕ) (f : Text) (rec : Recording) where
  pub held-settled :
      (old : Option Row)
      → (tracked (held_row now id f rec old) || is_state gone (held_row now id f rec old)) ≡ false
  unfolding held_row new_row
  held-settled none = refl
  held-settled (some r) = elim (Bool-cases (tracked r || is_state gone r)) [
    | inl old ↦ rw old refl
    | inr fine ↦ rw fine fine
  ]

  revive-settled :
      (fresh : Text) (r : Row)
      → (is_state gone (revive (or_else fresh r.source_dir) r) ≡ false)
        × (is_stale fresh (revive (or_else fresh r.source_dir) r) ≡ false)
  unfolding revive is_stale or_else
  revive-settled [] r = (refl, refl)
  revive-settled (c ∷ s) r = (refl, rw (text_eq_refl (c ∷ s)) refl)

  pub wanted-settled :
      (old : Option Row)
      → (is_state gone (wanted_row now id f rec old) ≡ false)
        × (is_stale rec.filepath (wanted_row now id f rec old) ≡ false)
  unfolding wanted_row
  wanted-settled none = new_fresh now id f rec
  wanted-settled (some r) = elim (Bool-cases (is_state gone r)) [
    | inl lost ↦ rw lost (revive-settled rec.filepath r)
    | inr kept ↦ elim (Bool-cases (is_stale rec.filepath r)) [
      | inl stale ↦ rw (kept, stale) (kept, stale_same rec.filepath _ refl)
      | inr fresh ↦ rw (kept, fresh) (kept, fresh)
    ]
  ]

-- The specification's row for a name, applied twice to one listing.
module _ (now now' id id' : ℕ) (present : List Text) (m : Index) (f : Text) where
  held_twice :
      (rec : Recording) (old : Option Row)
      → held_row now' id' f rec (some (held_row now id f rec old)) ≡ held_row now id f rec old
  held_twice rec old =
      let calm = held-settled now id f rec old in stays (held_row now id f rec old) calm
    where
      stays :
          (r : Row) → (tracked r || is_state gone r) ≡ false → held_row now' id' f rec (some r) ≡ r
      stays r h = unfold held_row in rw h refl

  wanted_twice :
      (rec : Recording) (old : Option Row)
      → wanted_row now' id' f rec (some (wanted_row now id f rec old)) ≡ wanted_row now id f rec old
  wanted_twice rec old =
      let (back, calm) = wanted-settled now id f rec old in
      stays (wanted_row now id f rec old) back calm
    where
      stays :
          (r : Row)
          → is_state gone r ≡ false
          → is_stale rec.filepath r ≡ false
          → wanted_row now' id' f rec (some r) ≡ r
      stays r h k = unfold wanted_row in rw (h, k) refl

  listed_twice :
      (rec : Recording) (old : Option Row)
      → listed_row now' id' present f rec (some (listed_row now id present f rec old))
        ≡ listed_row now id present f rec old
  unfolding listed_row
  listed_twice rec old = elim (Bool-cases (contains present f)) [
    | inl disk ↦ rw disk (held_twice rec old)
    | inr absent ↦ rw absent (wanted_twice rec old)
  ]

  unlisted_twice :
      (old : Option Row) → unlisted_row now' m (unlisted_row now m old) ≡ unlisted_row now m old
  unfolding unlisted_row
  unlisted_twice none = refl
  unlisted_twice (some r) = ground arith

  reconciled_by_twice :
      (found : Option Recording) (old : Option Row)
      → reconciled_by now' id' present m f found (reconciled_by now id present m f found old)
        ≡ reconciled_by now id present m f found old
  unfolding reconciled_by
  reconciled_by_twice none old = unlisted_twice old
  reconciled_by_twice (some rec) old = ap some (listed_twice rec old)

  pub reconciled_twice :
      (old : Option Row)
      → reconciled now' id' present m f (reconciled now id present m f old)
        ≡ reconciled now id present m f old
  unfolding reconciled
  reconciled_twice old = reconciled_by_twice (lookup f m) old
