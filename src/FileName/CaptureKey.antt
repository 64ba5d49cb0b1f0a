-- ===== src/FileName/CaptureKey.antt =====
-- `_stamp14_sql` of naming.py: one key for every layout of a recording name.
use mathlib.Core.List.{append-nil}
use viofosync.Prelude.{
  ℕ, zero, suc, ◌+◌, ◌≡◌, refl, ap, Bool, true, false, not, [], ◌∷◌, ◌++◌, arith, ◌==◌, length,
  take, select,
}
use viofosync.Prelude.Text.{Text, is_digit}
use viofosync.FileName.{Match, capture_key_sql}
use viofosync.FileName.Layout.{IsDigits, IsName, layout, tail}

take-append : (n k : ℕ) (d s : Text) → n ≡ length d + k → take n (d ++ s) ≡ d ++ take k s
take-append n k [] s e = let e' : n ≡ k = omega arith in rw e' refl
take-append zero k (c ∷ d) s e = absurd (omega arith)
take-append (suc n) k (c ∷ d) s e = ap (◌∷◌ c) (take-append n k d s (omega arith))

digit_kept : (c : ℕ) → is_digit c ≡ true → not (c == b'_') ≡ true
unfolding is_digit
digit_kept c h = ground arith

select-digits :
    (d s : Text)
    → IsDigits d
    → select (λ c. not (c == b'_')) (d ++ s) ≡ d ++ select (λ c. not (c == b'_')) s
select-digits [] s h = refl
select-digits (c ∷ d) s h = rw (digit_kept c h.0) (ap (◌∷◌ c) (select-digits d s h.1))

-- What the first `n` characters leave when the separators are removed.
kept : ℕ → Text → Text
kept n s = select (λ c. not (c == b'_')) (take n s)

kept-field :
    (n k : ℕ) (d s : Text) → n ≡ length d + k → IsDigits d → kept n (d ++ s) ≡ d ++ kept k s
unfolding kept
kept-field n k d s e h = rw (take-append n k d s e) (select-digits d (take k s) h)

kept-mark : (n : ℕ) (s : Text) → kept (suc n) (b'_' ∷ s) ≡ kept n s
unfolding kept
kept-mark n s = refl

kept-zero : (s : Text) → kept 0 s ≡ []
unfolding kept
kept-zero s = refl

abbrev pub digits14 : Match → Text
digits14 m = m.year ++ (m.month ++ (m.day ++ (m.hour ++ (m.minute ++ m.second))))

-- The key's fields, with what is behind them.
fields : Match → Text → Text
fields m s = m.year ++ (m.month ++ (m.day ++ (m.hour ++ (m.minute ++ (m.second ++ s)))))

module _ (m : Match) (n : IsName m) where
  -- Fourteen digits are kept and nothing behind them.
  take-fields : (s : Text) → take 14 (fields m s) ≡ digits14 m
  unfolding fields
  take-fields s =
      rw
        (
          take-append 14 10 m.year _ (omega (arith, n.year_length)),
          take-append 10 8 m.month _ (omega (arith, n.month_length)),
          take-append 8 6 m.day _ (omega (arith, n.day_length)),
          take-append 6 4 m.hour _ (omega (arith, n.hour_length)),
          take-append 4 2 m.minute _ (omega (arith, n.minute_length)),
          take-append 2 0 m.second _ (omega (arith, n.second_length)),
          append-nil,
        )
        refl

  -- The date and the time, each with what its separator leaves of the sixteen characters.
  kept-date :
      (k : ℕ) (s : Text) → kept (k + 4) (m.month ++ (m.day ++ s)) ≡ m.month ++ (m.day ++ kept k s)
  kept-date k s =
      rw
        (
          kept-field (k + 4) (k + 2) m.month (m.day ++ s) (omega (arith, n.month_length))
              n.month_digits,
          kept-field (k + 2) k m.day s (omega (arith, n.day_length)) n.day_digits,
        )
        refl

  kept-time :
      (k : ℕ) (s : Text)
      → kept (k + 6) (m.hour ++ (m.minute ++ (m.second ++ s)))
        ≡ m.hour ++ (m.minute ++ (m.second ++ kept k s))
  kept-time k s =
      rw
        (
          kept-field (k + 6) (k + 4) m.hour _ (omega (arith, n.hour_length)) n.hour_digits,
          kept-field (k + 4) (k + 2) m.minute _ (omega (arith, n.minute_length)) n.minute_digits,
          kept-field (k + 2) k m.second s (omega (arith, n.second_length)) n.second_digits,
        )
        refl

  kept-layout :
      (after_year after_day : Bool)
      → (s : Text) × (kept 16 (layout after_year after_day m) ≡ fields m s)
  unfolding fields
  kept-layout true true = (
    kept 0 (tail m.sequence m.camera),
    rw
        (
          kept-field 16 12 m.year _ (omega (arith, n.year_length)) n.year_digits,
          kept-mark 11,
          kept-date 7,
          kept-mark 6,
          kept-time 0,
        )
        refl,
  )
  kept-layout true false = (
    kept 1 (tail m.sequence m.camera),
    rw
        (
          kept-field 16 12 m.year _ (omega (arith, n.year_length)) n.year_digits,
          kept-mark 11,
          kept-date 7,
          kept-time 1,
        )
        refl,
  )
  kept-layout false true = (
    kept 1 (tail m.sequence m.camera),
    rw
        (
          kept-field 16 12 m.year _ (omega (arith, n.year_length)) n.year_digits,
          kept-date 8,
          kept-mark 7,
          kept-time 1,
        )
        refl,
  )
  kept-layout false false = (
    kept 2 (tail m.sequence m.camera),
    rw
        (
          kept-field 16 12 m.year _ (omega (arith, n.year_length)) n.year_digits,
          kept-date 8,
          kept-time 2,
        )
        refl,
  )

capture_key-kept : (col : Text) → capture_key_sql col ≡ take 14 (kept 16 col)
unfolding capture_key_sql kept
capture_key-kept col = refl

-- On every name of the four layouts the capture key is the fourteen digits of the date and time:
-- neither the separators nor the sequence number nor the camera letters change it.
pub capture_key-layout :
    (after_year after_day : Bool) (m : Match)
    → IsName m
    → capture_key_sql (layout after_year after_day m) ≡ digits14 m
capture_key-layout after_year after_day m n =
    let (s, e) = kept-layout m n after_year after_day in
    rw (capture_key-kept, e) (take-fields m n s)
