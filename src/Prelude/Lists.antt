-- ===== src/Prelude/Lists.antt =====
-- Lists measured by native numbers, searched by Boolean tests, and predicates over them.
use Prim.Native.Nat.{ℕ, zero, suc, ◌+◌, ◌-◌, ◌≤◌, min}
use mathlib.Core.Path.{◌≡◌, refl, ap}
use mathlib.Core.Logic.{inl, inr}
use mathlib.Core.Bool.{Bool, true, false, ◌&&◌, ◌||◌}
use mathlib.Core.Option.{Option, none, some}
use mathlib.Core.List.{List, [], ◌∷◌, ◌++◌, Memᴰ}
use native.Mathlib.Omega.{arith}
use viofosync.Prelude.Tests.{if◌then◌else◌, Bool-cases}

module _ {ℓ} {A : Type ℓ} where
  abbrev pub length : List A → ℕ
  length [] = 0
  length (x ∷ xs) = suc (length xs)

  abbrev pub take : ℕ → List A → List A
  take zero xs = []
  take (suc n) [] = []
  take (suc n) (x ∷ xs) = x ∷ take n xs

  abbrev pub drop : ℕ → List A → List A
  drop zero xs = xs
  drop (suc n) [] = []
  drop (suc n) (x ∷ xs) = drop n xs

  abbrev pub get_elem? : List A → ℕ → Option A
  get_elem? [] i = none
  get_elem? (x ∷ xs) zero = some x
  get_elem? (x ∷ xs) (suc i) = get_elem? xs i

  -- The elements that pass a test, in order: `[x for x in xs if p(x)]`.
  abbrev pub select : (A → Bool) → List A → List A
  select p [] = []
  select p (x ∷ xs) = if p x then x ∷ select p xs else select p xs

  abbrev pub any : (A → Bool) → List A → Bool
  any p [] = false
  any p (x ∷ xs) = p x || any p xs

  abbrev pub all : (A → Bool) → List A → Bool
  all p [] = true
  all p (x ∷ xs) = p x && all p xs

  -- How many elements pass a test.
  abbrev pub count : (A → Bool) → List A → ℕ
  count p [] = 0
  count p (x ∷ xs) = (if p x then 1 else 0) + count p xs

  abbrev pub All {κ} : (A → Type κ) → List A → Type κ
  All P [] = Unit
  All P (x ∷ xs) = P x × All P xs

  pub All-intro {κ} : {P : A → Type κ} (xs : List A) → ((x : A) → P x) → All P xs
  All-intro [] h = tt
  All-intro (x ∷ xs) h = (h x, All-intro xs h)

  pub All_mem {κ} : (P : A → Type κ) {x : A} (xs : List A) → All P xs → Memᴰ x xs → P x
  All_mem P [] h m = elim m [ ]
  All_mem P (y ∷ ys) h (Memᴰ.head e) = rw e h.0
  All_mem P (y ∷ ys) h (Memᴰ.tail m) = All_mem P ys h.1 m

  pub All-imp {κ μ} :
      {P : A → Type κ} {Q : A → Type μ} (xs : List A) → ((x : A) → P x → Q x) → All P xs → All Q xs
  All-imp [] f h = tt
  All-imp (x ∷ xs) f h = (f x h.0, All-imp xs f h.1)

  pub any_of_mem : (p : A → Bool) {x : A} (xs : List A) → Memᴰ x xs → p x ≡ true → any p xs ≡ true
  any_of_mem p [] m h = elim m [ ]
  any_of_mem p (y ∷ ys) (Memᴰ.head e) h = rw (← e, h) refl
  any_of_mem p (y ∷ ys) (Memᴰ.tail m) h = ground (arith, any_of_mem p ys m h)

  pub mem_of_any :
      (p : A → Bool) (xs : List A) → any p xs ≡ true → (x : A) × Memᴰ x xs × (p x ≡ true)
  mem_of_any p [] h = cc
  mem_of_any p (y ∷ ys) h = elim (Bool-cases (p y)) [
    | inl here ↦ (y, Memᴰ.head refl, here)
    | inr there ↦ let (x, m, px) = mem_of_any p ys (rw there at h) in (x, Memᴰ.tail m, px)
  ]

  pub length-take : (n : ℕ) (xs : List A) → length (take n xs) ≡ min n (length xs)
  length-take zero xs = omega arith
  length-take (suc n) [] = omega arith
  length-take (suc n) (x ∷ xs) = omega (arith, length-take n xs)

  pub length-drop : (n : ℕ) (xs : List A) → length (drop n xs) ≡ length xs - n
  length-drop zero xs = omega arith
  length-drop (suc n) [] = omega arith
  length-drop (suc n) (x ∷ xs) = omega (arith, length-drop n xs)

  drop_nil : (n : ℕ) → drop n [] ≡ []
  drop_nil zero = refl
  drop_nil (suc n) = refl

  pub drop-drop : (m n : ℕ) (xs : List A) → drop (m + n) xs ≡ drop n (drop m xs)
  drop-drop zero n xs = let e : 0 + n ≡ n = omega arith in rw e refl
  drop-drop (suc m) n [] = rw (drop_nil (suc m + n), drop_nil n) refl
  drop-drop (suc m) n (x ∷ xs) =
      let e : suc m + n ≡ suc (m + n) = omega arith in rw e (drop-drop m n xs)

  pub drop-append : (xs ys : List A) → drop (length xs) (xs ++ ys) ≡ ys
  drop-append [] ys = refl
  drop-append (x ∷ xs) ys = drop-append xs ys

  pub count-le-length : (p : A → Bool) (xs : List A) → count p xs ≤ length xs
  count-le-length p [] = omega arith
  count-le-length p (x ∷ xs) = ground (arith, count-le-length p xs)

  pub length-select : (p : A → Bool) (xs : List A) → length (select p xs) ≡ count p xs
  length-select p [] = refl
  length-select p (x ∷ xs) = ground (arith, length-select p xs)

  pub count_mono :
      (p q : A → Bool)
      → ((x : A) → p x ≡ true → q x ≡ true)
      → (xs : List A) → count p xs ≤ count q xs
  count_mono p q h [] = omega arith
  count_mono p q h (x ∷ xs) = ground (arith, h x, count_mono p q h xs)

  pub count-select :
      (p q r : A → Bool)
      → ((x : A) → r x ≡ (q x && p x))
      → (xs : List A) → count p (select q xs) ≡ count r xs
  count-select p q r h [] = refl
  count-select p q r h (x ∷ xs) = ground (arith, h x, count-select p q r h xs)

  pub count_strict :
      (p q : A → Bool) {x : A}
      → ((y : A) → p y ≡ true → q y ≡ true)
      → (xs : List A) → Memᴰ x xs
      → q x ≡ true
      → p x ≡ false
      → suc (count p xs) ≤ count q xs
  count_strict p q h [] m qx px = elim m [ ]
  count_strict p q h (y ∷ ys) (Memᴰ.head e) qx px =
      let qy = rw e at qx in let py = rw e at px in rw (qy, py) (omega (arith, count_mono p q h ys))
  count_strict p q h (y ∷ ys) (Memᴰ.tail m) qx px =
      ground (arith, h y, count_strict p q h ys m qx px)

  take_nil : (n : ℕ) → take n [] ≡ []
  take_nil zero = refl
  take_nil (suc n) = refl

  pub drop-take : (p n : ℕ) (f : List A) → take n (drop p f) ≡ drop p (take (p + n) f)
  drop-take zero n f = let e : 0 + n ≡ n = omega arith in rw e refl
  drop-take (suc p) n [] = rw (take_nil n, take_nil (suc p + n)) refl
  drop-take (suc p) n (x ∷ f) =
      let e : suc p + n ≡ suc (p + n) = omega arith in rw e (drop-take p n f)

  -- A part of the bytes that is as long as they are is all of them.
  pub take_whole : (k : ℕ) (f : List A) → length f ≤ length (take k f) → take k f ≡ f
  take_whole zero [] h = refl
  take_whole (suc k) [] h = refl
  take_whole zero (x ∷ f) h = absurd (omega arith)
  take_whole (suc k) (x ∷ f) h = ap (◌∷◌ x) (take_whole k f (omega arith))

  pub take-take : (k n : ℕ) (f : List A) → take k (take n f) ≡ take (min k n) f
  take-take zero n f = let e : min 0 n ≡ 0 = omega arith in rw e refl
  take-take (suc k) zero f = let e : min (suc k) 0 ≡ 0 = omega arith in rw e refl
  take-take (suc k) (suc n) [] =
      let e : min (suc k) (suc n) ≡ suc (min k n) = omega arith in rw e refl
  take-take (suc k) (suc n) (x ∷ f) =
      let e : min (suc k) (suc n) ≡ suc (min k n) = omega arith in
      rw e (ap (◌∷◌ x) (take-take k n f))

  pub take-append : (h e : ℕ) (f : List A) → h ≤ e → take h f ++ drop h (take e f) ≡ take e f
  take-append zero e f a = refl
  take-append (suc h) zero f a = absurd (omega arith)
  take-append (suc h) (suc e) [] a = refl
  take-append (suc h) (suc e) (x ∷ f) a = ap (◌∷◌ x) (take-append h e f (omega arith))

  pub drop_of_append :
      (s : ℕ) (xs ys : List A) → s ≤ length xs → drop s xs ++ ys ≡ drop s (xs ++ ys)
  drop_of_append zero xs ys a = refl
  drop_of_append (suc s) [] ys a = absurd (omega arith)
  drop_of_append (suc s) (x ∷ xs) ys a = drop_of_append s xs ys (omega arith)

  pub length-append : (xs ys : List A) → length (xs ++ ys) ≡ length xs + length ys
  length-append [] ys = omega arith
  length-append (x ∷ xs) ys = omega (arith, length-append xs ys)

  pub take-length : (xs : List A) → take (length xs) xs ≡ xs
  take-length [] = refl
  take-length (x ∷ xs) = ap (◌∷◌ x) (take-length xs)

  pub take_short : (m : ℕ) (xs : List A) → take m xs ≡ take (min m (length xs)) xs
  take_short zero xs = let e : min 0 (length xs) ≡ 0 = omega arith in rw e refl
  take_short (suc m) [] = let e : min (suc m) 0 ≡ 0 = omega arith in rw e refl
  take_short (suc m) (x ∷ xs) =
      let e : min (suc m) (suc (length xs)) ≡ suc (min m (length xs)) = omega arith in
      rw e (ap (◌∷◌ x) (take_short m xs))
