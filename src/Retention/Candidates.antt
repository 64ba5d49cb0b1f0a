-- ===== src/Retention/Candidates.antt =====
-- The clips that a pass of retention.py may still evict, and their number.
use mathlib.Core.List.{Memᴰ}
use viofosync.Prelude.{
  ℕ, suc, ◌≤◌, ◌≡◌, refl, Bool, true, false, not, ◌&&◌, List, ◌∷◌, arith, ◌==◌, ==_refl,
  if◌then◌else◌, count, count_mono, count_strict, count-select,
}
use viofosync.Retention.{Clip}
use viofosync.Retention.Evictions.{without}

-- A clip leaves the candidates by leaving the index, or as one that could not be unlinked.
module _ (candidate : List ℕ → Clip → Bool)
    (law : (i : ℕ) (ids : List ℕ) (c : Clip)
      → candidate (i ∷ ids) c ≡ (not (c.id == i) && candidate ids c)) where
  unfoldable pub left : List ℕ → List Clip → ℕ
  left ids cs = count (candidate ids) cs

  left-without :
      (i : ℕ) (ids : List ℕ) (cs : List Clip) → left ids (without i cs) ≡ left (i ∷ ids) cs
  unfolding left
  left-without i ids cs =
      count-select (candidate ids) (λ c. not (c.id == i)) (candidate (i ∷ ids)) (law i ids) cs

  left_less : (i : ℕ) (ids : List ℕ) (cs : List Clip) → left (i ∷ ids) cs ≤ left ids cs
  unfolding left
  left_less i ids cs =
      count_mono (candidate (i ∷ ids)) (candidate ids) (λ c e. ground (arith, law i ids c)) cs

  left_fewer :
      (x : Clip) (ids : List ℕ) (cs : List Clip)
      → Memᴰ x cs
      → candidate ids x ≡ true
      → suc (left (x.id ∷ ids) cs) ≤ left ids cs
  unfolding left
  left_fewer x ids cs m e =
      count_strict (candidate (x.id ∷ ids)) (candidate ids) (λ c e'. ground (arith, law x.id ids c))
        cs m e (rw (law x.id ids x, ==_refl x.id) refl)

  -- Both ways a row of a batch can go leave as many.
  pub left-row :
      (removed : Bool) (x : Clip) (ids : List ℕ) (cs : List Clip)
      → left (if removed then ids else x.id ∷ ids) (if removed then without x.id cs else cs)
        ≡ left (x.id ∷ ids) cs
  left-row true x ids cs = left-without x.id ids cs
  left-row false x ids cs = refl

  pub left_row_less :
      (removed : Bool) (x : Clip) (ids : List ℕ) (cs : List Clip)
      → left (if removed then ids else x.id ∷ ids) (if removed then without x.id cs else cs)
        ≤ left ids cs
  left_row_less removed x ids cs = rw (left-row removed x ids cs) (left_less x.id ids cs)

  pub left_row_fewer :
      (removed : Bool) (x : Clip) (ids : List ℕ) (cs : List Clip)
      → Memᴰ x cs
      → candidate ids x ≡ true
      → suc (left (if removed then ids else x.id ∷ ids) (if removed then without x.id cs else cs))
        ≤ left ids cs
  left_row_fewer removed x ids cs m e = rw (left-row removed x ids cs) (left_fewer x ids cs m e)
