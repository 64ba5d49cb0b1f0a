-- ===== src/FileName/Agreement.antt =====
-- The SQL fragments of naming.py against the parser of queue.py, on names of the four layouts.
use mathlib.Core.Option.{some-injective, none-ne-some}
use mathlib.Core.List.{append_assoc}
use viofosync.Prelude.{
  ℕ, ◌≤◌, ◌≡◌, refl, ◌∙◌, ◌⊎◌, inl, inr, Bool, true, false, [], ◌∷◌, ◌++◌, map, some, arith, ◌==◌,
  length, Bool-cases,
}
use viofosync.Prelude.Text.{Text, codes, upper, is_digit, from_end}
use viofosync.Camera.{camera_letters}
use viofosync.FileName.{
  Match, last_or, mem_char, known_letters, suffix_letters, camera_of_letters, event_of_letters,
  camera_from_filename, event_from_filename, suffixless_sql, camera_letter_sql, event_type_sql,
}
use viofosync.FileName.Ends.{
  length-append, from_end-append, from_end_all, from_end-last, last_or_digit,
}
use viofosync.FileName.Layout.{IsDigits, IsName, layout, tail, optional, parse-layout}

abbrev Agrees : Text → Text → Type 0
Agrees name letters =
    (camera_letter_sql name ≡ some (camera_of_letters letters))
    × (event_type_sql name ≡ event_of_letters letters)

upper_of_plain :
    (c : ℕ)
    → (c ≡ b'_') ⊎ (is_digit c ≡ true)
    → ((upper c == b'P') ≡ false) × ((upper c == b'E') ≡ false)
unfolding upper is_digit
upper_of_plain c h = ground arith

digit_of_letter :
    (a : ℕ) → mem_char (upper a) (map upper camera_letters) ≡ true → is_digit a ≡ false
unfolding mem_char upper is_digit
digit_of_letter a h = ground arith

module _ (name : Text) (c p : ℕ) (last : from_end 5 name ≡ some c)
    (before : from_end 6 name ≡ some p) where
  Agrees-none : is_digit c ≡ true → (p ≡ b'_') ⊎ (is_digit p ≡ true) → Agrees name []
  unfolding camera_letter_sql suffixless_sql event_type_sql event_of_letters camera_of_letters
  Agrees-none h plain =
      let (no_p, no_e) = upper_of_plain p plain in rw (last, before, h, no_p, no_e) (refl, refl)

  Agrees-one : is_digit c ≡ false → (p ≡ b'_') ⊎ (is_digit p ≡ true) → Agrees name (upper c ∷ [])
  unfolding camera_letter_sql suffixless_sql event_type_sql event_of_letters camera_of_letters
  Agrees-one h plain =
      let (no_p, no_e) = upper_of_plain p plain in rw (last, before, h, no_p, no_e) (refl, refl)

  Agrees-two : is_digit c ≡ false → Agrees name (upper p ∷ upper c ∷ [])
  unfolding camera_letter_sql suffixless_sql event_type_sql event_of_letters camera_of_letters
  Agrees-two h = rw (last, before, h) (refl, refl)

known_none : (l : Text) → known_letters [] ≡ some l → [] ≡ l
unfolding known_letters
known_none l h = some-injective [] l h

known_one :
    (a : ℕ) (l : Text)
    → known_letters (upper a ∷ []) ≡ some l
    → (is_digit a ≡ false) × (upper a ∷ [] ≡ l)
unfolding known_letters
known_one a l h = elim (Bool-cases (mem_char (upper a) (map upper camera_letters))) [
  | inl e ↦ (digit_of_letter a e, some-injective _ _ (rw e at h))
  | inr e ↦ absurd (none-ne-some _ (rw e at h))
]

known_two :
    (a b : ℕ) (l : Text)
    → known_letters (upper a ∷ upper b ∷ []) ≡ some l
    → (is_digit b ≡ false) × (upper a ∷ upper b ∷ [] ≡ l)
unfolding known_letters
known_two a b l h = elim (Bool-cases (mem_char (upper b) (map upper camera_letters))) [
  | inl e ↦ ground (arith, digit_of_letter b e)
  | inr e ↦ absurd (none-ne-some _ (rw e at h))
]

known_three :
    (a b c : ℕ) (s l : Text)
    → known_letters (upper a ∷ upper b ∷ upper c ∷ map upper s) ≡ some l
    → ⊥
unfolding known_letters
known_three a b c s l h = none-ne-some l h

plain_last : (d : Text) → IsDigits d → (last_or b'_' d ≡ b'_') ⊎ (is_digit (last_or b'_' d) ≡ true)
plain_last = last_or_digit b'_'

abbrev Plain : ℕ → Type 0
Plain c = (c ≡ b'_') ⊎ (is_digit c ≡ true)

before_last :
    (y x : ℕ) (d : Text)
    → IsDigits (x ∷ d)
    → Plain y
    → (p : ℕ) × (from_end 6 (y ∷ x ∷ (d ++ codes ".MP4")) ≡ some p) × Plain p
before_last y x [] ds plain = (y, from_end_all y (x ∷ codes ".MP4"), plain)
before_last y x (c ∷ d) ds plain =
    let (p, e, plain_p) = before_last x c d ds.1 (inr ds.0) in
    (
      p,
      from_end-append 6 (y ∷ []) (x ∷ c ∷ (d ++ codes ".MP4"))
            (omega (arith, length-append d (codes ".MP4")))
          ∙ e,
      plain_p,
    )

tail-Agrees :
    (sequence camera l : Text)
    → IsDigits sequence
    → (sequence ≡ [] → camera ≡ [] → ⊥)
    → known_letters (map upper camera) ≡ some l
    → Agrees (tail sequence camera) l
tail-Agrees sequence (a ∷ []) l ds m h =
    let (letter, e) = known_one a l h in
    rw (← e) (
      Agrees-one (tail sequence (a ∷ [])) a (last_or b'_' sequence)
        (from_end-append 5 (b'_' ∷ sequence) (a ∷ codes ".MP4") (omega arith)
          ∙ from_end_all a (codes ".MP4"))
        (from_end-last b'_' sequence (a ∷ codes ".MP4")) letter (plain_last sequence ds))
tail-Agrees sequence (a ∷ b ∷ []) l ds m h =
    let (letter, e) = known_two a b l h in
    rw (← e) (
      Agrees-two (tail sequence (a ∷ b ∷ [])) b a
        (from_end-append 5 (b'_' ∷ sequence) (a ∷ b ∷ codes ".MP4") (omega arith)
          ∙ from_end-append 5 (a ∷ []) (b ∷ codes ".MP4") (omega arith)
          ∙ from_end_all b (codes ".MP4"))
        (from_end-append 6 (b'_' ∷ sequence) (a ∷ b ∷ codes ".MP4") (omega arith)
          ∙ from_end_all a (b ∷ codes ".MP4"))
        letter)
tail-Agrees [] [] l ds m h = absurd (m refl refl)
tail-Agrees (x ∷ d) [] l ds m h =
    let e : [] ≡ l = known_none l h in
    let (p, at_six, plain) = before_last b'_' x d ds (inl refl) in
    rw (← e) (
      Agrees-none (tail (x ∷ d) []) (last_or x d) p
        (from_end-append 5 (b'_' ∷ []) (x ∷ (d ++ codes ".MP4"))
            (omega (arith, length-append d (codes ".MP4")))
          ∙ from_end-last x d (codes ".MP4"))
        at_six (elim (last_or_digit x d ds.1) [ inl same ↦ rw same ds.0 | inr digit ↦ digit ])
        plain)
tail-Agrees sequence (a ∷ b ∷ c ∷ s) l ds m h = absurd (known_three a b c s l h)

-- What stands before the mark of a name.
abbrev stamp : Bool → Bool → Match → Text
stamp after_year after_day m =
    m.year
    ++ (optional after_year
        ++ (m.month ++ (m.day ++ (optional after_day ++ (m.hour ++ (m.minute ++ m.second))))))

layout-split :
    (after_year after_day : Bool) (m : Match)
    → layout after_year after_day m ≡ stamp after_year after_day m ++ tail m.sequence m.camera
layout-split after_year after_day m = simp append_assoc

-- The SQL fragments read only the end of a name.
sql-append :
    (p s : Text)
    → 6 ≤ length s
    → (camera_letter_sql (p ++ s) ≡ camera_letter_sql s)
      × (event_type_sql (p ++ s) ≡ event_type_sql s)
unfolding camera_letter_sql event_type_sql suffixless_sql
sql-append p s h = rw (from_end-append 5 p s (omega arith), from_end-append 6 p s h) (refl, refl)

length-tail :
    (sequence camera : Text) → (sequence ≡ [] → camera ≡ [] → ⊥) → 6 ≤ length (tail sequence camera)
length-tail [] [] m = absurd (m refl refl)
length-tail (x ∷ d) camera m =
    omega (arith, length-append d (camera ++ codes ".MP4"), length-append camera (codes ".MP4"))
length-tail [] (a ∷ s) m = omega (arith, length-append s (codes ".MP4"))

sql_of_letters :
    (name l : Text)
    → suffix_letters name ≡ some l
    → Agrees name l
    → (camera_letter_sql name ≡ camera_from_filename name)
      × (some (event_type_sql name) ≡ event_from_filename name)
unfolding camera_from_filename event_from_filename
sql_of_letters name l h (cam, ev) = rw (h, cam, ev) (refl, refl)

suffix_letters-layout :
    (after_year after_day : Bool) (m : Match)
    → IsName m
    → suffix_letters (layout after_year after_day m) ≡ known_letters (map upper m.camera)
unfolding suffix_letters
suffix_letters-layout after_year after_day m n = rw (parse-layout after_year after_day m n) refl

Agrees-layout :
    (after_year after_day : Bool) (m : Match) (letters : Text)
    → 6 ≤ length (tail m.sequence m.camera)
    → Agrees (tail m.sequence m.camera) letters
    → Agrees (layout after_year after_day m) letters
Agrees-layout after_year after_day m letters long h =
    let (cam, ev) = sql-append (stamp after_year after_day m) (tail m.sequence m.camera) long in
    rw (layout-split after_year after_day m, cam, ev) h

-- For every name of the four layouts whose letters the registry knows, the camera letter and the
-- event type that SQL cuts from the end of the name are those that the parser finds.
pub sql_agrees-layout :
    (after_year after_day : Bool) (m : Match) (letters : Text)
    → IsName m
    → suffix_letters (layout after_year after_day m) ≡ some letters
    → (camera_letter_sql (layout after_year after_day m)
        ≡ camera_from_filename (layout after_year after_day m))
      × (some (event_type_sql (layout after_year after_day m))
          ≡ event_from_filename (layout after_year after_day m))
sql_agrees-layout after_year after_day m letters n h = sql_of_letters _ letters h (
    Agrees-layout after_year after_day m letters (length-tail m.sequence m.camera n.marked) (
      tail-Agrees m.sequence m.camera letters n.sequence_digits n.marked
        (rw (suffix_letters-layout after_year after_day m n) at h)))
