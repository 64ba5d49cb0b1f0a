-- ===== src/Queue/Reconcile/Outcome.antt =====
-- What the queue looks like after `reconcile`.
use mathlib.Core.Option.{some-injective, none-ne-some}
use viofosync.Prelude.{
  ℕ, ◌≡◌, refl, sym, ◌∙◌, ap, inl, inr, Bool, true, false, ◌||◌, List, [], ◌∷◌, Option, none, some,
  arith, Bool-cases, any,
}
use viofosync.Prelude.Text.{Text, text_eq, text_eq_iff}
use viofosync.Queue.Row.{Row, Table}
use viofosync.Queue.Reconcile.{
  Recording, Index, put, index_from, remote_by_name, listed, contains, find, tracked, is_empty,
  reconcile,
}
use viofosync.Queue.Reconcile.Spec.{lookup, listed_row, unlisted_row, reconciled_by, reconciled}
use viofosync.Queue.Reconcile.Settled.{held-settled, reconciled_twice}
use viofosync.Queue.Reconcile.Refinement.{UniqueNames, listed-lookup, reconcile-find}
use viofosync.Queue.Reconcile.Unique.{reconcile-UniqueNames}

-- To reconcile the same listing again, at any later time, changes no row, so a worker that lists
-- twice between downloads does no harm.
pub reconcile-idempotent :
    (now later : ℕ) (recordings : List Recording) (present : List Text) (t : Table) (f : Text)
    → UniqueNames t
    → find f (reconcile later recordings present (reconcile now recordings present t).0).0
      ≡ find f (reconcile now recordings present t).0
reconcile-idempotent now later recordings present t f u =
    let once = (reconcile now recordings present t).0 in
    let (id, first) = reconcile-find now recordings present t f u in
    let (id', second) =
      reconcile-find later recordings present once f
        (reconcile-UniqueNames now recordings present t u) in
    second
    ∙ ap (reconciled later id' present (remote_by_name recordings) f) first
    ∙ reconciled_twice now later id id' present (remote_by_name recordings) f (find f t)
    ∙ sym first

-- The listing names the file.
abbrev pub names_file : Text → List Recording → Bool
names_file f recordings = any (λ rec. text_eq rec.filename f) recordings

listed-put :
    (f k : Text) (rec : Recording) (m : Index)
    → listed f (put k rec m) ≡ (text_eq k f || listed f m)
unfolding listed put
listed-put f k rec [] = refl
listed-put f k rec ((j, old) ∷ m) = ground (arith, text_eq_iff j k, listed-put f k rec m)

lookup_of_unnamed :
    (f : Text) (m : Index) (recordings : List Recording)
    → names_file f recordings ≡ false
    → listed f m ≡ false
    → listed f (index_from m recordings) ≡ false
unfolding index_from
lookup_of_unnamed f m [] h k = k
lookup_of_unnamed f m (rec ∷ recordings) h k =
    lookup_of_unnamed f (put rec.filename rec m) recordings (ground arith)
      (ground (arith, listed-put f rec.filename rec m))

put_nonempty : (k : Text) (rec : Recording) (m : Index) → is_empty (put k rec m) ≡ false
unfolding put
put_nonempty k rec [] = refl
put_nonempty k rec ((j, old) ∷ m) = ground arith

index_nonempty :
    (m : Index) (recordings : List Recording)
    → is_empty m ≡ false
    → is_empty (index_from m recordings) ≡ false
unfolding index_from
index_nonempty m [] h = h
index_nonempty m (rec ∷ recordings) h =
    index_nonempty (put rec.filename rec m) recordings (put_nonempty rec.filename rec m)

remote_nonempty :
    (recordings : List Recording)
    → is_empty recordings ≡ false
    → is_empty (remote_by_name recordings) ≡ false
unfolding remote_by_name
remote_nonempty [] h = cc
remote_nonempty (rec ∷ recordings) h =
    unfold index_from in
    index_nonempty (put rec.filename rec []) recordings (put_nonempty rec.filename rec [])

named_of_lookup :
    (f : Text) (recordings : List Recording) (rec : Recording)
    → lookup f (remote_by_name recordings) ≡ some rec
    → names_file f recordings ≡ true
unfolding remote_by_name
named_of_lookup f recordings rec here = elim (Bool-cases (names_file f recordings)) [
  | inl yes_named ↦ yes_named
  | inr unnamed ↦
      let absent = lookup_of_unnamed f [] recordings unnamed (unfold listed in refl) in
      ground (arith, listed-lookup f (index_from [] recordings))
]

-- A row that is still tracked comes from a listed name whose file is not on disk.
tracked_by :
    (now id : ℕ) (present : List Text) (m : Index) (f : Text) (found : Option Recording)
    (old : Option Row) (r : Row)
    → is_empty m ≡ false
    → reconciled_by now id present m f found old ≡ some r
    → tracked r ≡ true
    → ((rec : Recording) × (found ≡ some rec)) × (contains present f ≡ false)
unfolding reconciled_by unlisted_row listed_row
tracked_by now id present m f none none r full e h = absurd (none-ne-some r e)
tracked_by now id present m f none (some old) r full e h = absurd (ground arith)
tracked_by now id present m f (some rec) old r full e h = elim (Bool-cases (contains present f)) [
  | inl disk ↦
      let same = some-injective _ _ (rw disk at e) in
      absurd (ground (arith, held-settled now id f rec old))
  | inr absent ↦ ((rec, refl), absent)
]

-- After a listing that is not empty, every clip still pending or failed is listed by the camera
-- and not on disk: nothing is downloaded that is gone or already there.
pub reconcile-tracked :
    (now : ℕ) (recordings : List Recording) (present : List Text) (t : Table) (f : Text) (r : Row)
    → UniqueNames t
    → is_empty recordings ≡ false
    → find f (reconcile now recordings present t).0 ≡ some r
    → tracked r ≡ true
    → (names_file f recordings ≡ true) × (contains present f ≡ false)
unfolding reconciled
reconcile-tracked now recordings present t f r u full e h =
    let (id, found) = reconcile-find now recordings present t f u in
    let m = remote_by_name recordings in
    let ((rec, here), absent) =
      tracked_by now id present m f (lookup f m) (find f t) r (remote_nonempty recordings full)
        (sym found ∙ e) h in
    (named_of_lookup f recordings rec here, absent)
