-- ===== src/Export/Within.antt =====
-- web/services/exporter.py: the pieces of a timeline export are parts of its clips.
use mathlib.Core.List.{Memᴰ}
use viofosync.Prelude.{
  ◌+◌, ◌-◌, ◌≤◌, ◌≡◌, refl, true, List, [], ◌∷◌, ◌++◌, arith, leb, min, max, select, All, inl, inr,
  ◌⊎◌, Bool-cases,
}
use viofosync.Prelude.Text.{text_eq}
use viofosync.Queue.Table.{mem_of_mem-select}
use viofosync.Export.{
  Segment, Take, end_of_take, Piece, min_piece_ms, overlaps, insert_take, by_start, piece_of,
  pieces_from, build_switch_pieces,
}

-- A piece shows a part of a clip, on the segment's channel and inside its window.
pub record IsPart (seg : Segment) (c : Take) (p : Piece) : Type 0 where
  pub same_path : p.path ≡ c.path
  pub same_channel : text_eq c.channel seg.channel ≡ true
  pub same_pip : p.pip ≡ seg.pip
  pub at_clip : p.ts ≡ c.start_ts + p.ss
  pub in_clip : p.ts + p.t ≤ end_of_take c
  pub from_start : seg.start_ts ≤ p.ts
  pub to_end : p.ts + p.t ≤ seg.end_ts
  pub long_enough : min_piece_ms ≤ p.t

abbrev pub IsWithin : List Segment → List Take → Piece → Type 0
IsWithin segs clips p =
    (seg : Segment) × Memᴰ seg segs × ((c : Take) × Memᴰ c clips × IsPart seg c p)

All-join : (P : Piece → Type 0) (xs ys : List Piece) → All P xs → All P ys → All P (xs ++ ys)
All-join P [] ys h k = k
All-join P (x ∷ xs) ys (h, hs) k = (h, All-join P xs ys hs k)

mem_of_mem-insert_take :
    (c d : Take) (t : List Take) → Memᴰ c (insert_take d t) → (c ≡ d) ⊎ Memᴰ c t
unfolding insert_take
mem_of_mem-insert_take c d [] m = uncons m
  where
    uncons : Memᴰ c (d ∷ []) → (c ≡ d) ⊎ Memᴰ c []
    uncons (Memᴰ.head e) = inl e
    uncons (Memᴰ.tail n) = inr n
mem_of_mem-insert_take c d (x ∷ t) m = elim (Bool-cases (leb d.start_ts x.start_ts)) [
  | inl e ↦ front (rw e at m)
  | inr e ↦ behind (rw e at m) (mem_of_mem-insert_take c d t)
]
  where
    front : Memᴰ c (d ∷ x ∷ t) → (c ≡ d) ⊎ Memᴰ c (x ∷ t)
    front (Memᴰ.head e) = inl e
    front (Memᴰ.tail n) = inr n

    behind :
        {l : List Take}
        → Memᴰ c (x ∷ l)
        → (Memᴰ c l → (c ≡ d) ⊎ Memᴰ c t)
        → (c ≡ d) ⊎ Memᴰ c (x ∷ t)
    behind (Memᴰ.head e) go_on = inr (Memᴰ.head e)
    behind (Memᴰ.tail n) go_on = elim (go_on n) [ inl e ↦ inl e | inr k ↦ inr (Memᴰ.tail k) ]

mem_of_mem-by_start : (c : Take) (t : List Take) → Memᴰ c (by_start t) → Memᴰ c t
unfolding by_start
mem_of_mem-by_start c [] m = m
mem_of_mem-by_start c (x ∷ t) m = elim (mem_of_mem-insert_take c x (by_start t) m) [
  | inl e ↦ Memᴰ.head e
  | inr n ↦ Memᴰ.tail (mem_of_mem-by_start c t n)
]

piece_of-Within :
    (segs : List Segment) (clips : List Take) (seg : Segment) (c : Take)
    → Memᴰ seg segs
    → Memᴰ c clips
    → overlaps seg c ≡ true
    → All (IsWithin segs clips) (piece_of seg c)
unfolding piece_of overlaps
piece_of-Within segs clips seg c ms mc o =
    elim (Bool-cases (
      leb (max seg.start_ts c.start_ts - c.start_ts + min_piece_ms)
        (min seg.end_ts (end_of_take c) - c.start_ts))) [
          | inl e ↦ rw e (
            (
              seg,
              ms,
              (
                c,
                mc,
                record {
                  same_path = refl;
                  same_channel = ground arith;
                  same_pip = refl;
                  at_clip = omega arith;
                  in_clip = ground arith;
                  from_start = ground arith;
                  to_end = ground arith;
                  long_enough = ground arith;
                },
              ),
            ),
            tt,
          )
          | inr e ↦ rw e tt
        ]

pieces_from-Within :
    (segs : List Segment) (clips : List Take) (seg : Segment) (t : List Take)
    → Memᴰ seg segs
    → ((c : Take) → Memᴰ c t → Memᴰ c clips × (overlaps seg c ≡ true))
    → All (IsWithin segs clips) (pieces_from seg t)
unfolding pieces_from
pieces_from-Within segs clips seg [] ms h = tt
pieces_from-Within segs clips seg (c ∷ t) ms h =
    let (mc, o) = h c (Memᴰ.head refl) in
    All-join (IsWithin segs clips) (piece_of seg c) (pieces_from seg t)
      (piece_of-Within segs clips seg c ms mc o)
      (pieces_from-Within segs clips seg t ms (λ d m. h d (Memᴰ.tail m)))

build-Within :
    (all_segs segs : List Segment) (clips : List Take)
    → ((seg : Segment) → Memᴰ seg segs → Memᴰ seg all_segs)
    → All (IsWithin all_segs clips) (build_switch_pieces segs clips)
unfolding build_switch_pieces
build-Within all_segs [] clips sub = tt
build-Within all_segs (seg ∷ segs) clips sub =
    All-join (IsWithin all_segs clips) (pieces_from seg (by_start (select (overlaps seg) clips)))
      (build_switch_pieces segs clips)
      (pieces_from-Within all_segs clips seg (by_start (select (overlaps seg) clips))
        (sub seg (Memᴰ.head refl))
        (λ c m.
          mem_of_mem-select (overlaps seg) clips
            (mem_of_mem-by_start c (select (overlaps seg) clips) m)))
      (build-Within all_segs segs clips (λ s m. sub s (Memᴰ.tail m)))

-- Each piece of a timeline export comes from one segment and one clip of its channel: it lies inside
-- both, starts in the clip where its offset says, has the segment's overlay, and lasts at least
-- 50 milliseconds.
pub build_switch_pieces-IsWithin :
    (segs : List Segment) (clips : List Take)
    → All (IsWithin segs clips) (build_switch_pieces segs clips)
build_switch_pieces-IsWithin segs clips = build-Within segs segs clips (λ s m. m)
