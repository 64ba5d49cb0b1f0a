-- ===== src/Queue/Keys.antt =====
-- Tables with an INTEGER PRIMARY KEY, and sums over their rows.
use mathlib.Core.List.{Memᴰ}
use viofosync.Prelude.{
  ℕ, ◌+◌, ◌≤◌, ap, ◌≡◌, refl, sym, ◌∙◌, Bool, true, false, List, [], ◌∷◌, ◌++◌, arith,
  if◌then◌else◌, ◌==◌, ==_iff, select, any, All, All_mem, Bool-cases, inl, inr,
}
use viofosync.Queue.Table.{update}

module _ {A : Type 0} where
  unfoldable pub sum : (A → ℕ) → List A → ℕ
  sum w [] = 0
  sum w (x ∷ t) = w x + sum w t

  pub sum-select : (w : A → ℕ) (p : A → Bool) (t : List A) → sum w (select p t) ≤ sum w t
  unfolding sum
  sum-select w p [] = omega arith
  sum-select w p (x ∷ t) = ground (arith, sum-select w p t)

module _ {A : Type 0} (key : A → ℕ) where
  abbrev pub keyed : ℕ → A → Bool
  keyed k x = key x == k

  abbrev pub Unique : List A → Type 0
  Unique [] = Unit
  Unique (x ∷ t) = All (λ y. keyed (key x) y ≡ false) t × Unique t

  other_keys :
      (p : A → Bool) (f : A → A) (k : ℕ)
      → ((x : A) → key (f x) ≡ key x)
      → (t : List A) → All (λ y. keyed k y ≡ false) t
      → All (λ y. keyed k y ≡ false) (update p f t)
  unfolding update
  other_keys p f k h [] u = tt
  other_keys p f k h (x ∷ t) (e, u) = (ground (arith, h x), other_keys p f k h t u)

  pub update-Unique :
      (p : A → Bool) (f : A → A)
      → ((x : A) → key (f x) ≡ key x)
      → (t : List A) → Unique t
      → Unique (update p f t)
  unfolding update
  update-Unique p f h [] u = tt
  update-Unique p f h (x ∷ t) (e, u) =
      (rw (same_key (p x)) (other_keys p f (key x) h t e), update-Unique p f h t u)
    where
      same_key : (b : Bool) → key (if b then f x else x) ≡ key x
      same_key true = h x
      same_key false = refl

  select-others :
      (p : A → Bool) (k : ℕ) (t : List A)
      → All (λ y. keyed k y ≡ false) t
      → All (λ y. keyed k y ≡ false) (select p t)
  select-others p k [] u = tt
  select-others p k (x ∷ t) (e, u) = elim (Bool-cases (p x)) [
    | inl y ↦ rw y (e, select-others p k t u)
    | inr n ↦ rw n (select-others p k t u)
  ]

  pub select-Unique : (p : A → Bool) (t : List A) → Unique t → Unique (select p t)
  select-Unique p [] u = tt
  select-Unique p (x ∷ t) (e, u) = elim (Bool-cases (p x)) [
    | inl y ↦ rw y (select-others p (key x) t e, select-Unique p t u)
    | inr n ↦ rw n (select-Unique p t u)
  ]

  append-others :
      (k : ℕ) (x : A) (t : List A)
      → keyed k x ≡ false
      → All (λ y. keyed k y ≡ false) t
      → All (λ y. keyed k y ≡ false) (t ++ x ∷ [])
  append-others k x [] h u = (h, tt)
  append-others k x (y ∷ t) h (e, u) = (e, append-others k x t h u)

  pub append-Unique :
      (x : A) (t : List A) → any (keyed (key x)) t ≡ false → Unique t → Unique (t ++ x ∷ [])
  append-Unique x [] h u = (tt, tt)
  append-Unique x (y ∷ t) h (e, u) = (
    append-others (key y) x t (ground (arith, ==_iff (key x) (key y), ==_iff (key y) (key x))) e,
    append-Unique x t (ground arith) u,
  )

  pub keyed_self : (x : A) → keyed (key x) x ≡ true
  keyed_self x = (==_iff (key x) (key x)).1 refl

  -- The row of a key is the only one.
  pub Unique-row :
      {x y : A} (t : List A) → Unique t → Memᴰ x t → Memᴰ y t → keyed (key x) y ≡ true → x ≡ y
  Unique-row [] u m n h = elim m [ ]
  Unique-row (z ∷ t) (e, u) (Memᴰ.head a) (Memᴰ.head b) h = a ∙ sym b
  Unique-row {x} {y} (z ∷ t) (e, u) (Memᴰ.head a) (Memᴰ.tail n) h =
      let k = All_mem (λ w. keyed (key z) w ≡ false) t e n in
      absurd (let h' : ((key y == key z) ≡ true) = rw a at h in cc)
  Unique-row {x} {y} (z ∷ t) (e, u) (Memᴰ.tail m) (Memᴰ.head b) h =
      let k = All_mem (λ w. keyed (key z) w ≡ false) t e m in
      absurd (
        let h' : ((key z == key x) ≡ true) = rw b at h in
        ground (arith, ==_iff (key z) (key x), ==_iff (key x) (key z)))
  Unique-row (z ∷ t) (e, u) (Memᴰ.tail m) (Memᴰ.tail n) h = Unique-row t u m n h

  pub update-others :
      (f : A → A) (k : ℕ) (t : List A) → All (λ y. keyed k y ≡ false) t → update (keyed k) f t ≡ t
  unfolding update
  update-others f k [] u = refl
  update-others f k (x ∷ t) (e, u) = rw e (ap (◌∷◌ x) (update-others f k t u))

  -- A statement on one key changes a sum by what it changes in that row.
  pub sum-update :
      (w : A → ℕ) (f : A → A) (x : A) (t : List A)
      → Unique t
      → Memᴰ x t
      → sum w (update (keyed (key x)) f t) + w x ≡ sum w t + w (f x)
  unfolding sum update
  sum-update w f x [] u m = elim m [ ]
  sum-update w f x (y ∷ t) (e, u) (Memᴰ.head a) =
      let rest : (update (keyed (key x)) f t ≡ t) = rw a (update-others f (key y) t e) in
      rw (rest, a, keyed_self y) (omega arith)
  sum-update w f x (y ∷ t) (e, u) (Memᴰ.tail m) =
      let k : ((key y == key x) ≡ false) =
        (let k' = All_mem (λ z. keyed (key y) z ≡ false) t e m in
          ground (arith, ==_iff (key y) (key x), ==_iff (key x) (key y))) in
      rw k (omega (arith, sum-update w f x t u m))
