-- ===== src/Queue/Table.antt =====
-- SQL statements on a table, which is the list of its rows.
use mathlib.Core.List.{Memᴰ}
use viofosync.Prelude.{
  ap, ◌≡◌, refl, Bool, true, false, List, [], ◌∷◌, Option, none, some, arith, if◌then◌else◌, length,
  select, All, Bool-cases, inl, inr, ◌⊎◌,
}

module _ {ℓ} {A : Type ℓ} where
  -- `UPDATE … SET f WHERE p`
  unfoldable pub update : (A → Bool) → (A → A) → List A → List A
  update p f [] = []
  update p f (r ∷ t) = (if p r then f r else r) ∷ update p f t

  -- `ORDER BY … LIMIT 1`: the first row that no other precedes. `before a b` is strict.
  unfoldable pub first_by : (A → A → Bool) → List A → Option A
  first_by before [] = none
  first_by before (r ∷ t) = elim (first_by before t) [
    | none ↦ some r
    | some s ↦ if before s r then some s else some r
  ]

  pub length-update : (p : A → Bool) (f : A → A) (t : List A) → length (update p f t) ≡ length t
  unfolding update
  length-update p f [] = refl
  length-update p f (r ∷ t) = omega (arith, length-update p f t)

  -- A relation that the written rows satisfy, and the others by reflexivity, holds row by row.
  pub data Rows {κ} (R : A → A → Type κ) : List A → List A → Type (ℓ ⊔ κ) where
    none_left : Rows R [] []
    row : {a b : A} {s t : List A} → R a b → Rows R s t → Rows R (a ∷ s) (b ∷ t)

  pub update-Rows {κ} :
      (R : A → A → Type κ) (p : A → Bool) (f : A → A)
      → ((r : A) → R r r)
      → ((r : A) → p r ≡ true → R r (f r))
      → (t : List A) → Rows R t (update p f t)
  unfolding update
  update-Rows R p f same step [] = none_left
  update-Rows R p f same step (r ∷ t) = row (written (p r) refl) (update-Rows R p f same step t)
    where
      written : (b : Bool) → p r ≡ b → R r (if b then f r else r)
      written true e = step r e
      written false e = same r

  pub update-All {κ} :
      (P : A → Type κ) (p : A → Bool) (f : A → A)
      → ((r : A) → P r → p r ≡ true → P (f r))
      → (t : List A) → All P t
      → All P (update p f t)
  unfolding update
  update-All P p f step [] h = tt
  update-All P p f step (r ∷ t) (h, hs) = (written (p r) refl, update-All P p f step t hs)
    where
      written : (b : Bool) → p r ≡ b → P (if b then f r else r)
      written true e = step r h e
      written false e = h

  pub Rows-comp {κ} :
      {R Q P : A → A → Type κ} {s t u : List A}
      → ((a b c : A) → R a b → Q b c → P a c)
      → Rows R s t
      → Rows Q t u
      → Rows P s u
  Rows-comp f none_left none_left = none_left
  Rows-comp f (row r rs) (row q qs) = row (f _ _ _ r q) (Rows-comp f rs qs)

  pub Rows-imp {κ} :
      {R P : A → A → Type κ} {s t : List A} → ((a b : A) → R a b → P a b) → Rows R s t → Rows P s t
  Rows-imp f none_left = none_left
  Rows-imp f (row r rs) = row (f _ _ r) (Rows-imp f rs)

  pub mem-update :
      (p : A → Bool) (f : A → A) {r : A} {t : List A}
      → Memᴰ r t
      → Memᴰ (if p r then f r else r) (update p f t)
  unfolding update
  mem-update p f (Memᴰ.head e) = Memᴰ.head (ap (λ r. if p r then f r else r) e)
  mem-update p f (Memᴰ.tail m) = Memᴰ.tail (mem-update p f m)

  pub mem_of_mem-update :
      (p : A → Bool) (f : A → A) {x : A} (t : List A)
      → Memᴰ x (update p f t)
      → (r : A) × Memᴰ r t × (x ≡ (if p r then f r else r))
  unfolding update
  mem_of_mem-update p f [] m = elim m [ ]
  mem_of_mem-update p f (r ∷ t) (Memᴰ.head e) = (r, Memᴰ.head refl, e)
  mem_of_mem-update p f (r ∷ t) (Memᴰ.tail m) =
      let (s, ms, e) = mem_of_mem-update p f t m in (s, Memᴰ.tail ms, e)

  pub mem-select : (p : A → Bool) {r : A} (t : List A) → Memᴰ r t → p r ≡ true → Memᴰ r (select p t)
  mem-select p [] m h = elim m [ ]
  mem-select p (s ∷ t) (Memᴰ.head e) h = rw (← e, h) (Memᴰ.head refl)
  mem-select p (s ∷ t) (Memᴰ.tail m) h = elim (Bool-cases (p s)) [
    | inl e ↦ rw e (Memᴰ.tail (mem-select p t m h))
    | inr e ↦ rw e (mem-select p t m h)
  ]

  pub mem_of_mem-select :
      (p : A → Bool) {r : A} (t : List A) → Memᴰ r (select p t) → Memᴰ r t × (p r ≡ true)
  mem_of_mem-select p [] m = elim m [ ]
  mem_of_mem-select p {r} (s ∷ t) m = elim (Bool-cases (p s)) [
    | inl e ↦ elim (uncons (rw e at m)) [
      | inl here ↦ (Memᴰ.head here, rw here e)
      | inr later ↦ let (mt, h) = mem_of_mem-select p t later in (Memᴰ.tail mt, h)
    ]
    | inr e ↦ let (mt, h) = mem_of_mem-select p t (rw e at m) in (Memᴰ.tail mt, h)
  ]
    where
      uncons : {l : List A} → Memᴰ r (s ∷ l) → (r ≡ s) ⊎ Memᴰ r l
      uncons (Memᴰ.head h) = inl h
      uncons (Memᴰ.tail m') = inr m'

  -- For a strict order whose negation is transitive, `first_by` finds a row that none precedes.
  module _ (before : A → A → Bool) (asym : (a b : A) → before a b ≡ true → before b a ≡ false)
      (not_trans : (a b c : A) → before a b ≡ false → before b c ≡ false → before a c ≡ false) where
    abbrev pub IsFirst : List A → Option A → Type ℓ
    IsFirst t none = (r : A) → Memᴰ r t → ⊥
    IsFirst t (some s) = Memᴰ s t × ((r : A) → Memᴰ r t → before r s ≡ false)

    irrefl : (a : A) → before a a ≡ false
    irrefl a = elim (Bool-cases (before a a)) [ inl e ↦ asym a a e | inr e ↦ e ]

    below-cons :
        (r s : A) (t : List A)
        → before r s ≡ false
        → ((x : A) → Memᴰ x t → before x s ≡ false)
        → (x : A) → Memᴰ x (r ∷ t)
        → before x s ≡ false
    below-cons r s t h hs x (Memᴰ.head e) = rw e h
    below-cons r s t h hs x (Memᴰ.tail m) = hs x m

    cons-IsFirst :
        (r : A) (t : List A) (o : Option A)
        → IsFirst t o
        → IsFirst
            (r ∷ t)
            (elim o [ none ↦ some r | some s ↦ if before s r then some s else some r ])
    cons-IsFirst r t none h = (Memᴰ.head refl, below-cons r r t (irrefl r) (λ x m. absurd (h x m)))
    cons-IsFirst r t (some s) (m, h) = elim (Bool-cases (before s r)) [
      | inl e ↦ rw e (Memᴰ.tail m, below-cons r s t (asym s r e) h)
      | inr e ↦
          rw e (Memᴰ.head refl, below-cons r r t (irrefl r) (λ x mx. not_trans x s r (h x mx) e))
    ]

    pub first_by-IsFirst : (t : List A) → IsFirst t (first_by before t)
    unfolding first_by
    first_by-IsFirst [] = λ r m. elim m [ ]
    first_by-IsFirst (r ∷ t) = cons-IsFirst r t (first_by before t) (first_by-IsFirst t)
