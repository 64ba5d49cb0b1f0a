-- ===== src/Gpx/Final.antt =====
-- viofosync_lib/_gpx.py: has_final_moov on a file that is a sequence of atoms.
use mathlib.Core.Path.{subst}
use viofosync.Prelude.{
  ℕ, zero, suc, ◌+◌, ◌/◌, ◌%◌, ◌≤◌, ◌<◌, ◌≡◌, refl, Bool, true, false, some, List, [], ◌∷◌, ◌++◌,
  arith, ltb, ◌==◌, if◌then◌else◌, length, take, drop, any, All, inl, inr, Bool-cases, lt→ltb,
  drop-drop, drop-append,
}
use viofosync.Prelude.Text.{Text, codes, text_eq}
use viofosync.Gpx.{
  Bytes, be32, cons_char, decode, get_atom_info, decode_from, look_at, read_at, has_final_moov,
}

-- An atom of a file: the four letters of its type, and its content.
pub record Atom : Type 0 where
  pub first : ℕ
  pub second : ℕ
  pub third : ℕ
  pub fourth : ℕ
  pub content : Bytes

abbrev pub size_of : Atom → ℕ
size_of a = 8 + length a.content

-- The letters are ASCII, and the size fits its 4 bytes.
abbrev pub IsAtom : Atom → Type 0
IsAtom a =
    (a.first < 128)
    × (a.second < 128)
    × (a.third < 128)
    × (a.fourth < 128)
    × (size_of a < 4294967296)

-- The bytes of an atom: its size, its type, its content.
abbrev pub bytes_of : Atom → Bytes
bytes_of a =
    let n = size_of a in
    (n / 16777216)
    ∷ (n / 65536 % 256)
    ∷ (n / 256 % 256)
    ∷ (n % 256)
    ∷ a.first
    ∷ a.second
    ∷ a.third
    ∷ a.fourth
    ∷ a.content

abbrev pub file_of : List Atom → Bytes
file_of [] = []
file_of (a ∷ s) = bytes_of a ++ file_of s

abbrev pub is_moov : Atom → Bool
is_moov a = text_eq (a.first ∷ a.second ∷ a.third ∷ a.fourth ∷ []) (codes "moov")

be32_size : (n : ℕ) → be32 (n / 16777216) (n / 65536 % 256) (n / 256 % 256) (n % 256) ≡ n
be32_size n = omega arith

decode_from-ascii :
    (b : ℕ) (s : Bytes)
    → b < 128
    → decode_from 0 0 0 0 (b ∷ s) ≡ cons_char b (decode_from 0 0 0 0 s)
unfolding decode_from
decode_from-ascii b s h = rw (decode_from, lt→ltb b 128 h) refl

decode_ascii :
    (e f g h : ℕ)
    → e < 128
    → f < 128
    → g < 128
    → h < 128
    → decode (e ∷ f ∷ g ∷ h ∷ []) ≡ some (e ∷ f ∷ g ∷ h ∷ [])
unfolding decode
decode_ascii e f g h le lf lg lh =
    rw
      (
        decode,
        decode_from-ascii e (f ∷ g ∷ h ∷ []) le,
        decode_from-ascii f (g ∷ h ∷ []) lf,
        decode_from-ascii g (h ∷ []) lg,
        decode_from-ascii h [] lh,
      )
      refl

get_atom_info_atom :
    (a : Atom) (s : Bytes)
    → IsAtom a
    → get_atom_info (take 8 (bytes_of a ++ s))
      ≡ (size_of a, a.first ∷ a.second ∷ a.third ∷ a.fourth ∷ [])
unfolding get_atom_info
get_atom_info_atom a s (e, f, g, h, small) =
    rw (decode_ascii a.first a.second a.third a.fourth e f g h, be32_size (size_of a)) refl

look_at_header :
    (h : Bytes) (n : ℕ) (type : Text)
    → length h ≡ 8
    → get_atom_info h ≡ (n, type)
    → 8 ≤ n
    → look_at h ≡ (if text_eq type (codes "moov") then (true, 0) else (false, n))
unfolding look_at
look_at_header h n type len info big =
    let long : ltb (length h) 8 ≡ false = ground arith in
    let enough : ltb n 8 ≡ false = ground arith in rw (info, long, enough) refl

look_at_atom :
    (a : Atom) (s : Bytes)
    → IsAtom a
    → look_at (take 8 (bytes_of a ++ s)) ≡ (if is_moov a then (true, 0) else (false, size_of a))
look_at_atom a s ok =
    look_at_header (take 8 (bytes_of a ++ s)) (size_of a) _ refl (get_atom_info_atom a s ok)
      (omega arith)

look_at_end : look_at [] ≡ (false, 0)
unfolding look_at
look_at_end = refl

drop_atom : (a : Atom) (s : Bytes) → drop (size_of a) (bytes_of a ++ s) ≡ s
drop_atom a s =
    let len : length (bytes_of a) ≡ size_of a = omega arith in
    subst (λ k. drop k (bytes_of a ++ s) ≡ s) len (drop-append (bytes_of a) s)

walk_of :
    (turns : ℕ) (atoms : List Atom) (file : Bytes) (offset : ℕ)
    → All IsAtom atoms
    → drop offset file ≡ file_of atoms
    → length atoms < turns
    → has_final_moov turns file offset ≡ some (any is_moov atoms)
unfolding has_final_moov
walk_of zero atoms file offset ok at enough = absurd (omega arith)
walk_of (suc n) [] file offset ok at enough =
    let last : look_at (read_at file offset 8) ≡ (false, 0) = rw at look_at_end in
    rw (has_final_moov, last, last) refl
walk_of (suc n) (a ∷ atoms) file offset (here, ok) at enough =
    let next : look_at (read_at file offset 8)
        ≡ (if is_moov a then (true, 0) else (false, size_of a)) =
      rw at (look_at_atom a (file_of atoms) here) in
    elim (Bool-cases (is_moov a)) [
      | inl hit ↦ rw (has_final_moov, next, hit) refl
      | inr miss ↦
          let moved : drop (offset + size_of a) file ≡ file_of atoms =
            rw (drop-drop offset (size_of a) file, at) (drop_atom a (file_of atoms)) in
          let more : (size_of a == 0) ≡ false = ground arith in
          rw (has_final_moov, next, miss, next, miss, more, next, miss)
            (walk_of n atoms file (offset + size_of a) ok moved (omega arith))
    ]

-- On a file that is a sequence of atoms, each with a type of four ASCII letters and a size that
-- fits four bytes, has_final_moov ends in as many turns as there are atoms and one more, and says
-- whether one of the atoms is a `moov`.
pub has_final_moov_lem :
    (turns : ℕ) (atoms : List Atom)
    → All IsAtom atoms
    → length atoms < turns
    → has_final_moov turns (file_of atoms) 0 ≡ some (any is_moov atoms)
has_final_moov_lem turns atoms ok enough = walk_of turns atoms (file_of atoms) 0 ok refl enough
