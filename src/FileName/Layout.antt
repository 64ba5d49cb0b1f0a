-- ===== src/FileName/Layout.antt =====
-- The layouts of recording names (README, "Tested cameras"), and that every reader of a name
-- agrees on them: the regular expression, the queue's helpers and the SQL fragments.
use viofosync.Prelude.{
  ℕ, zero, suc, ◌≡◌, refl, Bool, true, false, [], ◌∷◌, ◌++◌, some, arith, length, All,
}
use viofosync.Prelude.Text.{Text, codes, is_digit, is_alpha}
use viofosync.FileName.{Match, digits, separator, span, mark, parse}

abbrev pub IsDigits : Text → Type 0
IsDigits = All (λ c. is_digit c ≡ true)

abbrev pub IsLetters : Text → Type 0
IsLetters = All (λ c. is_alpha c ≡ true)

-- The parts of a name have the lengths and characters of the expression's groups.
pub record IsName (m : Match) : Type 0 where
  pub year_length : length m.year ≡ 4
  pub month_length : length m.month ≡ 2
  pub day_length : length m.day ≡ 2
  pub hour_length : length m.hour ≡ 2
  pub minute_length : length m.minute ≡ 2
  pub second_length : length m.second ≡ 2
  pub year_digits : IsDigits m.year
  pub month_digits : IsDigits m.month
  pub day_digits : IsDigits m.day
  pub hour_digits : IsDigits m.hour
  pub minute_digits : IsDigits m.minute
  pub second_digits : IsDigits m.second
  pub sequence_digits : IsDigits m.sequence
  pub camera_letters : IsLetters m.camera
  pub marked : (m.sequence ≡ []) → (m.camera ≡ []) → ⊥

abbrev pub optional : Bool → Text
optional true = b'_' ∷ []
optional false = []

-- A name from the mark on.
abbrev pub tail : Text → Text → Text
tail sequence camera = b'_' ∷ (sequence ++ (camera ++ codes ".MP4"))

-- A name of the layout with a separator after the year, and after the day, or without.
abbrev pub layout : Bool → Bool → Match → Text
layout after_year after_day m =
    m.year
    ++ (optional after_year
        ++ (m.month
            ++ (m.day
                ++ (optional after_day
                    ++ (m.hour
                        ++ (m.minute
                            ++ (m.second
                                ++ (b'_' ∷ (m.sequence ++ (m.camera ++ codes ".MP4"))))))))))

digits-append : (n : ℕ) (d s : Text) → length d ≡ n → IsDigits d → digits n (d ++ s) ≡ some (d, s)
unfolding digits
digits-append zero [] s e h = refl
digits-append zero (c ∷ d) s e h = absurd (omega arith)
digits-append (suc n) [] s e h = absurd (omega arith)
digits-append (suc n) (c ∷ d) s e h = rw (h.0, digits-append n d s (omega arith) h.1) refl

-- What follows an optional separator is never one itself.
separator-optional :
    (b : Bool) (n : ℕ) (d s : Text)
    → length d ≡ suc n
    → IsDigits d
    → separator (optional b ++ (d ++ s)) ≡ d ++ s
unfolding separator is_digit
separator-optional b n [] s e h = absurd (omega arith)
separator-optional true n (c ∷ d) s e h = refl
separator-optional false n (c ∷ d) s e (h, _) = ground arith

abbrev Stops : (ℕ → Bool) → Text → Type 0
Stops p [] = Unit
Stops p (c ∷ s) = p c ≡ false

span-append :
    (p : ℕ → Bool) (d s : Text) → All (λ x. p x ≡ true) d → Stops p s → span p (d ++ s) ≡ (d, s)
unfolding span
span-append p [] [] h e = refl
span-append p [] (c ∷ s) h e = rw e refl
span-append p (x ∷ d) s h e = rw (h.0, span-append p d s h.1 e) refl

digit_of_alpha : (c : ℕ) → is_alpha c ≡ true → is_digit c ≡ false
unfolding is_alpha is_digit
digit_of_alpha c h = ground arith

Stops-camera : (camera : Text) → IsLetters camera → Stops is_digit (camera ++ codes ".MP4")
unfolding is_digit
Stops-camera [] h = refl
Stops-camera (c ∷ s) h = unfold is_digit in digit_of_alpha c h.0

Stops-extension : Stops is_alpha (codes ".MP4")
unfolding is_alpha
Stops-extension = refl

mark_lem :
    (sequence camera : Text)
    → IsDigits sequence
    → IsLetters camera
    → ((sequence ≡ []) → (camera ≡ []) → ⊥)
    → mark (b'_' ∷ (sequence ++ (camera ++ codes ".MP4")))
      ≡ some (sequence ++ (camera ++ codes ".MP4"))
unfolding mark
mark_lem [] [] ds ls m = absurd (m refl refl)
mark_lem [] (c ∷ s) ds ls m = rw (digit_of_alpha c ls.0, ls.0) refl
mark_lem (d ∷ t) s ds ls m = rw ds.0 refl

-- Every name of the four layouts is parsed, into the parts from which it was built: the two
-- separators are optional, and so is one of the sequence number and the camera letters.
pub parse-layout :
    (after_year after_day : Bool) (m : Match)
    → IsName m
    → parse (layout after_year after_day m) ≡ some m
unfolding parse
parse-layout after_year after_day m n =
    rw
      (
        digits-append 4 m.year _ n.year_length n.year_digits,
        separator-optional after_year 1 m.month _ n.month_length n.month_digits,
        digits-append 2 m.month _ n.month_length n.month_digits,
        digits-append 2 m.day _ n.day_length n.day_digits,
        separator-optional after_day 1 m.hour _ n.hour_length n.hour_digits,
        digits-append 2 m.hour _ n.hour_length n.hour_digits,
        digits-append 2 m.minute _ n.minute_length n.minute_digits,
        digits-append 2 m.second _ n.second_length n.second_digits,
        mark_lem m.sequence m.camera n.sequence_digits n.camera_letters n.marked,
        span-append is_digit m.sequence _ n.sequence_digits
            (Stops-camera m.camera n.camera_letters),
        span-append is_alpha m.camera (codes ".MP4") n.camera_letters Stops-extension,
      )
      refl
