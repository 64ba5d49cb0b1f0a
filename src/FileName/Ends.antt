-- ===== src/FileName/Ends.antt =====
-- Characters of a name counted from its end, as `substr` with a negative position counts them.
use viofosync.Prelude.{
  ℕ, suc, ◌+◌, ◌-◌, ◌≤◌, ◌≡◌, refl, ◌∙◌, ◌⊎◌, inl, inr, true, [], ◌∷◌, ◌++◌, some, arith, length,
  get_elem?, le→leb,
}
use viofosync.Prelude.Text.{Text, is_digit, from_end}
use viofosync.FileName.{last_or}
use viofosync.FileName.Layout.{IsDigits}

pub length-append : (p s : Text) → length (p ++ s) ≡ length p + length s
length-append [] s = omega arith
length-append (c ∷ p) s = omega (arith, length-append p s)

get_elem?-append : (p s : Text) (i : ℕ) → get_elem? (p ++ s) (length p + i) ≡ get_elem? s i
get_elem?-append [] s i = let e : 0 + i ≡ i = omega arith in rw e refl
get_elem?-append (c ∷ p) s i =
    let e : length (c ∷ p) + i ≡ suc (length p + i) = omega arith in rw e (get_elem?-append p s i)

-- A position counted from the end does not see what stands in front.
pub from_end-append : (k : ℕ) (p s : Text) → k ≤ length s → from_end k (p ++ s) ≡ from_end k s
unfolding from_end
from_end-append k p s h =
    let long : k ≤ length (p ++ s) = omega (arith, length-append p s) in
    let e : length (p ++ s) - k ≡ length p + (length s - k) = omega (arith, length-append p s) in
    rw (le→leb _ _ long, le→leb _ _ h, e) (get_elem?-append p s (length s - k))

pub from_end_all : (x : ℕ) (s : Text) → from_end (suc (length s)) (x ∷ s) ≡ some x
unfolding from_end
from_end_all x s =
    let e : suc (length s) - suc (length s) ≡ 0 = omega arith in
    rw (le→leb (suc (length s)) (length (x ∷ s)) (omega arith)) (rw e refl)

-- The last character before a known end.
pub from_end-last :
    (x : ℕ) (d s : Text) → from_end (suc (length s)) (x ∷ (d ++ s)) ≡ some (last_or x d)
from_end-last x [] s = from_end_all x s
from_end-last x (c ∷ d) s =
    from_end-append (suc (length s)) (x ∷ []) (c ∷ (d ++ s)) (omega (arith, length-append d s))
    ∙ from_end-last c d s

pub last_or_digit :
    (x : ℕ) (d : Text) → IsDigits d → (last_or x d ≡ x) ⊎ (is_digit (last_or x d) ≡ true)
last_or_digit x [] h = inl refl
last_or_digit x (c ∷ d) h = elim (last_or_digit c d h.1) [ inl e ↦ inr (rw e h.0) | inr e ↦ inr e ]
