-- ===== src/Gpx/Walk.antt =====
-- viofosync_lib/_gpx.py: the walk over the atoms of a recording that collects its GPS fixes. A loop
-- takes the turns that it may make; a walk ends with the fixes, with the struct.error that a short
-- read inside a GPS table raises, or without turns.
pub mod Ends
use viofosync.Prelude.{
  ℕ, zero, suc, ◌+◌, ◌-◌, ◌≡◌, Bool, true, false, ◌&&◌, ◌||◌, not, Option, none, some, List, [],
  ◌∷◌, ◌++◌, arith, ltb, leb, ◌==◌, if◌then◌else◌, length, take, drop,
}
use viofosync.Prelude.Text.{Text, codes, text_eq}
use viofosync.Gpx.{Bytes, read_at, be32, decode, get_atom_info}
use viofosync.Gpx.Payload.{Fix, get_gps_data}

pub data Walk : Type 0 where
  fixes : List Fix → Walk
  struct_error : Walk
  no_turns : Walk

-- `struct.unpack('>II', ...)`: none is struct.error.
unfoldable pub get_gps_atom_info : Bytes → Option (ℕ × ℕ)
get_gps_atom_info (a ∷ b ∷ c ∷ d ∷ e ∷ f ∷ g ∷ h ∷ []) = some (be32 a b c d, be32 e f g h)
get_gps_atom_info _ = none

abbrev is_text : Text → Option Text → Bool
is_text s none = false
is_text s (some t) = text_eq t s

-- The header of a GPS atom: its size as the table gives it, `free` and `GPS `.
abbrev is_gps_atom : ℕ → Bytes → Bool
is_gps_atom size payload =
    (get_atom_info (take 8 payload)).0 == size
    && is_text (codes "free") (decode (take 4 (drop 4 payload)))
    && is_text (codes "GPS ") (decode (take 4 (drop 8 payload)))

unfoldable pub get_gps_atom : ℕ × ℕ → Bytes → Option Fix
unfolding get_atom_info decode text_eq get_gps_data
get_gps_atom (place, size) file =
    let payload = read_at file place size in
    if ltb (length payload) 12
    then none
    else if is_gps_atom size payload
    then get_gps_data (drop 12 payload)
    else none

abbrev append : List Fix → Option Fix → List Fix
append found none = found
append found (some fix) = found ++ (fix ∷ [])

-- The entries of a GPS table, 8 bytes each.
unfoldable pub walk_table : (turns : ℕ) → Bytes → (offset end : ℕ) → List Fix → Walk
unfolding get_gps_atom_info get_gps_atom
walk_table zero file offset end found = no_turns
walk_table (suc n) file offset end found = elim (ltb offset end) [
  | false ↦ fixes found
  | true ↦ elim (get_gps_atom_info (read_at file offset 8)) [
    | none ↦ struct_error
    | some entry ↦ walk_table n file (offset + 8) end (append found (get_gps_atom entry file))
  ]
]

abbrev pub and_then : Walk → (List Fix → Walk) → Walk
and_then (fixes found) k = k found
and_then struct_error k = struct_error
and_then no_turns k = no_turns

abbrev table_if : Bool → Walk → List Fix → Walk
table_if true w found = w
table_if false w found = fixes found

-- The atoms inside `moov`, up to its end or to one that is shorter than its own header.
unfoldable pub walk_moov : (turns : ℕ) → Bytes → (offset end : ℕ) → List Fix → Walk
unfolding get_atom_info text_eq walk_table
walk_moov zero file offset end found = no_turns
walk_moov (suc n) file offset end found = elim (ltb offset end) [
  | false ↦ fixes found
  | true ↦
      let (size, type) = get_atom_info (read_at file offset 8) in
      elim (ltb size 8) [
        | true ↦ fixes found
        | false ↦
            and_then
              (elim (text_eq type (codes "gps ")) [
                | true ↦ walk_table (suc n) file (16 + offset) (offset + size) found
                | false ↦ fixes found
              ])
              (λ now. walk_moov n file (offset + size) end now)
      ]
]

-- The atoms of the file, up to one of size 0 (which a short read gives too).
unfoldable pub walk_file : (turns : ℕ) → Bytes → (offset : ℕ) → List Fix → Walk
unfolding get_atom_info text_eq walk_moov
walk_file zero file offset found = no_turns
walk_file (suc n) file offset found =
    let (size, type) = get_atom_info (read_at file offset 8) in
    elim (size == 0) [
      | true ↦ fixes found
      | false ↦
          and_then
            (elim (text_eq type (codes "moov")) [
              | true ↦ walk_moov (suc n) file (offset + 8) (offset + size) found
              | false ↦ fixes found
            ])
            (λ now. walk_file n file (offset + size) now)
    ]

-- `parse_moov`
unfoldable pub parse_moov : (turns : ℕ) → Bytes → Walk
unfolding walk_file
parse_moov turns file = walk_file turns file 0 []
