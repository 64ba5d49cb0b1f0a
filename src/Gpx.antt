-- ===== src/Gpx.antt =====
-- viofosync_lib/_gpx.py: the bytes of a recording, the headers of its atoms, and the search for the
-- `moov` atom. A file is the list of its bytes, and `read_at` is a seek followed by a read: at the
-- end of the file a read is short.
pub mod Final
pub mod Payload
pub mod Walk
use viofosync.Prelude.{
  ℕ, zero, suc, ◌+◌, ◌-◌, ◌*◌, ◌≡◌, Bool, true, false, ◌&&◌, ◌||◌, Option, none, some, List, [],
  ◌∷◌, arith, ltb, leb, ◌==◌, if◌then◌else◌, length, take, drop,
}
use viofosync.Prelude.Text.{Text, codes, text_eq}

abbrev pub Bytes : Type 0
Bytes = List ℕ

-- `f.seek(offset)` and `f.read(size)`.
abbrev pub read_at : Bytes → ℕ → ℕ → Bytes
read_at file offset size = take size (drop offset file)

-- What the first byte of a UTF-8 character says: the character, or how many bytes follow, the
-- bounds of the next one and the bits so far.
pub data Lead : Type 0 where
  ascii : ℕ → Lead
  begins : ℕ → ℕ → ℕ → ℕ → Lead
  invalid : Lead

abbrev lead : ℕ → Lead
lead b =
    if ltb b 128
    then ascii b
    else if ltb b 194
    then invalid
    else if ltb b 224
    then begins 1 128 191 (b - 192)
    else if b == 224
    then begins 2 160 191 0
    else if b == 237
    then begins 2 128 159 13
    else if ltb b 240
    then begins 2 128 191 (b - 224)
    else if b == 240
    then begins 3 144 191 0
    else if ltb b 244
    then begins 3 128 191 (b - 240)
    else if b == 244
    then begins 3 128 143 4
    else invalid

abbrev pub cons_char : ℕ → Option Text → Option Text
cons_char c none = none
cons_char c (some s) = some (c ∷ s)

-- The strict decoder: `missing` bytes of a character are still to come, the next one between `low`
-- and `high`.
unfoldable decode_from : (missing low high bits : ℕ) → Bytes → Option Text
decode_from zero low high bits [] = some []
decode_from (suc n) low high bits [] = none
decode_from zero low high bits (b ∷ s) = elim (lead b) [
  | ascii c ↦ cons_char c (decode_from 0 0 0 0 s)
  | begins n lo hi acc ↦ decode_from n lo hi acc s
  | invalid ↦ none
]
decode_from (suc zero) low high bits (b ∷ s) =
    let rest = decode_from 0 0 0 0 s in
    if leb low b && leb b high then cons_char (bits * 64 + (b - 128)) rest else none
decode_from (suc (suc n)) low high bits (b ∷ s) =
    let rest = decode_from (suc n) 128 191 (bits * 64 + (b - 128)) s in
    if leb low b && leb b high then rest else none

-- `data.decode()`: none is UnicodeDecodeError.
unfoldable pub decode : Bytes → Option Text
unfolding decode_from
decode = decode_from 0 0 0 0

-- `struct.unpack('>I', ...)`
abbrev pub be32 : ℕ → ℕ → ℕ → ℕ → ℕ
be32 a b c d = a * 16777216 + b * 65536 + c * 256 + d

abbrev pub typed : ℕ → Option Text → ℕ × Text
typed size none = (0, [])
typed size (some type) = (size, type)

-- The size and the type of an atom: (0, '') when there are not 8 bytes or the type is no text.
unfoldable pub get_atom_info : Bytes → ℕ × Text
unfolding decode
get_atom_info (a ∷ b ∷ c ∷ d ∷ e ∷ f ∷ g ∷ h ∷ []) =
    typed (be32 a b c d) (decode (e ∷ f ∷ g ∷ h ∷ []))
get_atom_info _ = (0, [])

-- One turn of `has_final_moov`, on the 8 bytes that it has read: the answer, or the size of the
-- atom to skip.
unfoldable pub look_at : Bytes → Bool × ℕ
unfolding get_atom_info text_eq
look_at header =
    let (size, type) = get_atom_info header in
    if ltb (length header) 8
    then (false, 0)
    else if text_eq type (codes "moov")
    then (true, 0)
    else if ltb size 8
    then (false, 0)
    else (false, size)

-- The walk from an offset; none when the turns do not suffice.
unfoldable pub has_final_moov : (turns : ℕ) → Bytes → (offset : ℕ) → Option Bool
unfolding look_at
has_final_moov zero file offset = none
has_final_moov (suc n) file offset =
    let (found, size) = look_at (read_at file offset 8) in
    elim found [
      | true ↦ some true
      | false ↦ elim (size == 0) [
        | true ↦ some false
        | false ↦ has_final_moov n file (offset + size)
      ]
    ]
