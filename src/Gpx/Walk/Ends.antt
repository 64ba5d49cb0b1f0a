-- ===== src/Gpx/Walk/Ends.antt =====
-- viofosync_lib/_gpx.py: parse_moov ends on every file, since each loop moves on from an offset at
-- which the file still has 8 bytes, or by the 8 bytes that it has read.
use viofosync.Prelude.{
  ℕ, zero, suc, ◌+◌, ◌-◌, ◌≤◌, ◌<◌, ◌≡◌, refl, some, List, [], ◌∷◌, arith, ltb, ◌==◌, length, drop,
  min, length-take, length-drop, inl, inr, Bool-cases, Option-cases,
}
use viofosync.Prelude.Text.{codes, text_eq}
use viofosync.Gpx.{Bytes, read_at, get_atom_info}
use viofosync.Gpx.Payload.{Fix}
use viofosync.Gpx.Walk.{
  Walk, fixes, struct_error, no_turns, and_then, get_gps_atom_info, walk_table, walk_moov,
  walk_file, parse_moov,
}

-- A walk that does not stop for lack of turns.
abbrev pub Ends : Walk → Type 0
Ends (fixes found) = Unit
Ends struct_error = Unit
Ends no_turns = ⊥

header_size : (h : Bytes) → length h < 8 → (get_atom_info h).0 ≡ 0
unfolding get_atom_info
header_size [] lt = refl
header_size (a ∷ []) lt = refl
header_size (a ∷ b ∷ []) lt = refl
header_size (a ∷ b ∷ c ∷ []) lt = refl
header_size (a ∷ b ∷ c ∷ d ∷ []) lt = refl
header_size (a ∷ b ∷ c ∷ d ∷ e ∷ []) lt = refl
header_size (a ∷ b ∷ c ∷ d ∷ e ∷ f ∷ []) lt = refl
header_size (a ∷ b ∷ c ∷ d ∷ e ∷ f ∷ g ∷ []) lt = refl
header_size (a ∷ b ∷ c ∷ d ∷ e ∷ f ∷ g ∷ h ∷ []) lt = omega arith
header_size (a ∷ b ∷ c ∷ d ∷ e ∷ f ∷ g ∷ h ∷ i ∷ s) lt = omega arith

-- An entry of a table is read from 8 bytes.
entry_size : (h : Bytes) (entry : ℕ × ℕ) → get_gps_atom_info h ≡ some entry → 8 ≤ length h
unfolding get_gps_atom_info
entry_size [] entry e = cc
entry_size (a ∷ []) entry e = cc
entry_size (a ∷ b ∷ []) entry e = cc
entry_size (a ∷ b ∷ c ∷ []) entry e = cc
entry_size (a ∷ b ∷ c ∷ d ∷ []) entry e = cc
entry_size (a ∷ b ∷ c ∷ d ∷ f ∷ []) entry e = cc
entry_size (a ∷ b ∷ c ∷ d ∷ f ∷ g ∷ []) entry e = cc
entry_size (a ∷ b ∷ c ∷ d ∷ f ∷ g ∷ h ∷ []) entry e = cc
entry_size (a ∷ b ∷ c ∷ d ∷ f ∷ g ∷ h ∷ i ∷ s) entry e = omega arith

length-read_at :
    (file : Bytes) (offset : ℕ) → length (read_at file offset 8) ≡ min 8 (length file - offset)
length-read_at file offset = rw (length-take 8 (drop offset file), length-drop offset file) refl

atom_inside :
    (file : Bytes) (offset : ℕ)
    → 1 ≤ (get_atom_info (read_at file offset 8)).0
    → offset + 8 ≤ length file
atom_inside file offset h =
    ground (arith, length-read_at file offset, header_size (read_at file offset 8))

entry_inside :
    (file : Bytes) (offset : ℕ) (entry : ℕ × ℕ)
    → get_gps_atom_info (read_at file offset 8) ≡ some entry
    → offset + 8 ≤ length file
entry_inside file offset entry e =
    omega (arith, length-read_at file offset, entry_size (read_at file offset 8) entry e)

and_then-Ends :
    (w : Walk) (k : List Fix → Walk)
    → Ends w
    → ((found : List Fix) → Ends (k found))
    → Ends (and_then w k)
and_then-Ends (fixes found) k e h = h found
and_then-Ends struct_error k e h = tt
and_then-Ends no_turns k e h = e

walk_table-Ends :
    (n : ℕ) (file : Bytes) (offset end : ℕ) (found : List Fix)
    → length file - offset < n
    → Ends (walk_table n file offset end found)
unfolding walk_table
walk_table-Ends zero file offset end found h = absurd (omega arith)
walk_table-Ends (suc n) file offset end found h = elim (Bool-cases (ltb offset end)) [
  | inr over ↦ rw (walk_table, over) tt
  | inl more ↦ elim (Option-cases (get_gps_atom_info (read_at file offset 8))) [
    | inl short ↦ rw (walk_table, more, short) tt
    | inr (entry, e) ↦
        rw (walk_table, more, e)
          (walk_table-Ends n file (offset + 8) end _
            (omega (arith, entry_inside file offset entry e)))
  ]
]

walk_moov-Ends :
    (n : ℕ) (file : Bytes) (offset end : ℕ) (found : List Fix)
    → length file - offset < n
    → Ends (walk_moov n file offset end found)
unfolding walk_moov
walk_moov-Ends zero file offset end found h = absurd (omega arith)
walk_moov-Ends (suc n) file offset end found h =
    let (size, type) = get_atom_info (read_at file offset 8) in
    elim (Bool-cases (ltb offset end)) [
      | inr over ↦ rw (walk_moov, over) tt
      | inl more ↦ elim (Bool-cases (ltb size 8)) [
        | inl small ↦ rw (walk_moov, more, small) tt
        | inr big ↦
            let inside : offset + 8 ≤ length file = ground (arith, atom_inside file offset) in
            let next : length file - (offset + size) < n = ground arith in
            let rest : (now : List Fix) → Ends (walk_moov n file (offset + size) end now) =
              λ now. walk_moov-Ends n file (offset + size) end now next in
            elim (Bool-cases (text_eq type (codes "gps "))) [
              | inl gps ↦
                  rw (walk_moov, more, big, gps)
                    (and_then-Ends (walk_table (suc n) file (16 + offset) (offset + size) found) _
                      (walk_table-Ends (suc n) file (16 + offset) (offset + size) found
                        (omega arith))
                      rest)
              | inr other ↦ rw (walk_moov, more, big, other) (rest found)
            ]
      ]
    ]

walk_file-Ends :
    (n : ℕ) (file : Bytes) (offset : ℕ) (found : List Fix)
    → length file - offset < n
    → Ends (walk_file n file offset found)
unfolding walk_file
walk_file-Ends zero file offset found h = absurd (omega arith)
walk_file-Ends (suc n) file offset found h =
    let (size, type) = get_atom_info (read_at file offset 8) in
    elim (Bool-cases (size == 0)) [
      | inl none_left ↦ rw (walk_file, none_left) tt
      | inr more ↦
          let inside : offset + 8 ≤ length file = ground (arith, atom_inside file offset) in
          let next : length file - (offset + size) < n = ground arith in
          let rest : (now : List Fix) → Ends (walk_file n file (offset + size) now) =
            λ now. walk_file-Ends n file (offset + size) now next in
          elim (Bool-cases (text_eq type (codes "moov"))) [
            | inl moov ↦
                rw (walk_file, more, moov)
                  (and_then-Ends (walk_moov (suc n) file (offset + 8) (offset + size) found) _
                    (walk_moov-Ends (suc n) file (offset + 8) (offset + size) found (omega arith))
                    rest)
            | inr other ↦ rw (walk_file, more, other) (rest found)
          ]
    ]

-- With more turns than the file has bytes, parse_moov comes to an end on every file: it returns the
-- fixes that it has found, or raises the struct.error of a short read inside a GPS table.
pub parse_moov-Ends :
    (turns : ℕ) (file : Bytes) → length file < turns → Ends (parse_moov turns file)
unfolding parse_moov
parse_moov-Ends turns file h = walk_file-Ends turns file 0 [] (omega arith)
