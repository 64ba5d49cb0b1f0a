-- ===== src/Track/Sessions.antt =====
-- web/services/gps.py: the sessions of a point stream are its points, cut at the long gaps.
use mathlib.Core.List.{append_assoc}
use mathlib.Core.Path.{subst}
use viofosync.Prelude.{
  ℕ, ◌+◌, ◌≤◌, ◌<◌, ◌≡◌, refl, sym, ap, ◌∙◌, Option, none, some, List, [], ◌∷◌, ◌++◌, arith, ltb,
  ltb→lt, if◌then◌else◌, inl, inr, Bool-cases,
}
use viofosync.Track.{Point, Climbs, add_to_last, split_from, split_on_time_gaps}

abbrev pub concat : List (List Point) → List Point
concat [] = []
concat (chunk ∷ chunks) = chunk ++ concat chunks

-- The time of the last of the points after a time.
abbrev pub last_t : ℕ → List Point → ℕ
last_t t [] = t
last_t t (p ∷ ps) = last_t p.t ps

-- No gap inside a chunk is longer than allowed.
abbrev pub Within : ℕ → ℕ → List Point → Type 0
Within max_gap_s t [] = Unit
Within max_gap_s t (p ∷ ps) = (p.t ≤ t + max_gap_s) × Within max_gap_s p.t ps

abbrev pub After : ℕ → Option ℕ → ℕ → Type 0
After max_gap_s none t = Unit
After max_gap_s (some last) t = last + max_gap_s < t

-- Chunks that are not empty, without a long gap inside one and with a long gap between two.
abbrev pub IsSplit : ℕ → Option ℕ → List (List Point) → Type 0
IsSplit max_gap_s prev [] = Unit
IsSplit max_gap_s prev ([] ∷ chunks) = ⊥
IsSplit max_gap_s prev ((p ∷ ps) ∷ chunks) =
    After max_gap_s prev p.t
    × Within max_gap_s p.t ps
    × IsSplit max_gap_s (some (last_t p.t ps)) chunks

add_to_last-snoc :
    (p : Point) (chunks : List (List Point)) (chunk : List Point)
    → add_to_last p (chunks ++ (chunk ∷ [])) ≡ chunks ++ ((chunk ++ (p ∷ [])) ∷ [])
unfolding add_to_last
add_to_last-snoc p [] chunk = refl
add_to_last-snoc p (c ∷ []) chunk = refl
add_to_last-snoc p (c ∷ d ∷ chunks) chunk = rw (add_to_last-snoc p (d ∷ chunks) chunk) refl

-- The chunks from an open chunk and the points that are left.
chunks_from : (max_gap_s last : ℕ) → List Point → List Point → List (List Point)
chunks_from max_gap_s last open_chunk [] = open_chunk ∷ []
chunks_from max_gap_s last open_chunk (p ∷ ps) =
    if ltb (last + max_gap_s) p.t
    then open_chunk ∷ chunks_from max_gap_s p.t (p ∷ []) ps
    else chunks_from max_gap_s p.t (open_chunk ++ (p ∷ [])) ps

split_from-chunks :
    (max_gap_s last : ℕ) (chunks : List (List Point)) (chunk ps : List Point)
    → split_from max_gap_s last (chunks ++ (chunk ∷ [])) ps
      ≡ chunks ++ chunks_from max_gap_s last chunk ps
unfolding split_from chunks_from
split_from-chunks max_gap_s last chunks chunk [] = refl
split_from-chunks max_gap_s last chunks chunk (p ∷ ps) =
    elim (Bool-cases (ltb (last + max_gap_s) p.t)) [
      | inl gap ↦
          rw
            (
              gap,
              split_from-chunks max_gap_s p.t (chunks ++ (chunk ∷ [])) (p ∷ []) ps,
              append_assoc chunks (chunk ∷ []) (chunks_from max_gap_s p.t (p ∷ []) ps),
            )
            refl
      | inr near ↦
          rw (near, add_to_last-snoc p chunks chunk)
            (split_from-chunks max_gap_s p.t chunks (chunk ++ (p ∷ [])) ps)
    ]

concat-chunks_from :
    (max_gap_s last : ℕ) (chunk ps : List Point)
    → concat (chunks_from max_gap_s last chunk ps) ≡ chunk ++ ps
unfolding chunks_from
concat-chunks_from max_gap_s last chunk [] = refl
concat-chunks_from max_gap_s last chunk (p ∷ ps) = elim (Bool-cases (ltb (last + max_gap_s) p.t)) [
  | inl gap ↦ rw (gap, concat-chunks_from max_gap_s p.t (p ∷ []) ps) refl
  | inr near ↦
      rw
        (
          near,
          concat-chunks_from max_gap_s p.t (chunk ++ (p ∷ [])) ps,
          append_assoc chunk (p ∷ []) ps,
        )
        refl
]

Within-snoc :
    (max_gap_s t : ℕ) (ps : List Point) (p : Point)
    → Within max_gap_s t ps
    → p.t ≤ last_t t ps + max_gap_s
    → Within max_gap_s t (ps ++ (p ∷ []))
Within-snoc max_gap_s t [] p w le = (le, tt)
Within-snoc max_gap_s t (q ∷ ps) p (a, w) le = (a, Within-snoc max_gap_s q.t ps p w le)

last_t-snoc : (t : ℕ) (ps : List Point) (p : Point) → last_t t (ps ++ (p ∷ [])) ≡ p.t
last_t-snoc t [] p = refl
last_t-snoc t (q ∷ ps) p = last_t-snoc q.t ps p

chunks_from-IsSplit :
    (max_gap_s last : ℕ) (prev : Option ℕ) (c : Point) (cs ps : List Point)
    → last ≡ last_t c.t cs
    → After max_gap_s prev c.t
    → Within max_gap_s c.t cs
    → IsSplit max_gap_s prev (chunks_from max_gap_s last (c ∷ cs) ps)
unfolding chunks_from
chunks_from-IsSplit max_gap_s last prev c cs [] e a w = (a, w, tt)
chunks_from-IsSplit max_gap_s last prev c cs (p ∷ ps) e a w =
    elim (Bool-cases (ltb (last + max_gap_s) p.t)) [
      | inl gap ↦ rw gap (
        a,
        w,
        chunks_from-IsSplit max_gap_s p.t (some (last_t c.t cs)) p [] ps refl
            (omega (arith, e, ltb→lt (last + max_gap_s) p.t gap)) tt,
      )
      | inr near ↦ rw near (
          chunks_from-IsSplit max_gap_s p.t prev c (cs ++ (p ∷ [])) ps (sym (last_t-snoc c.t cs p))
            a (Within-snoc max_gap_s c.t cs p w (ground (arith, e, near))))
    ]

-- _split_on_time_gaps keeps all points, in their order: its chunks, one after the other, are the
-- points. No chunk is empty, no gap inside a chunk is longer than allowed, and between the last
-- point of a chunk and the first of the next there is a longer one.
pub split_on_time_gaps-IsSplit :
    (max_gap_s : ℕ) (points : List Point)
    → (concat (split_on_time_gaps max_gap_s points) ≡ points)
      × IsSplit max_gap_s none (split_on_time_gaps max_gap_s points)
unfolding split_on_time_gaps
split_on_time_gaps-IsSplit max_gap_s [] = (refl, tt)
split_on_time_gaps-IsSplit max_gap_s (p ∷ ps) =
    let e : split_from max_gap_s p.t ((p ∷ []) ∷ []) ps ≡ chunks_from max_gap_s p.t (p ∷ []) ps =
      split_from-chunks max_gap_s p.t [] (p ∷ []) ps in
    (
      ap concat e ∙ concat-chunks_from max_gap_s p.t (p ∷ []) ps,
      subst (IsSplit max_gap_s none) (sym e)
          (chunks_from-IsSplit max_gap_s p.t none p [] ps refl tt tt),
    )

Climbs-append :
    (lo : ℕ) (p : Point) (ps rest : List Point) (hi : ℕ)
    → Climbs lo ((p ∷ ps) ++ rest) hi
    → Climbs lo (p ∷ ps) (last_t p.t ps) × Climbs (last_t p.t ps) rest hi
Climbs-append lo p [] rest hi (a, c) = ((a, omega arith), c)
Climbs-append lo p (q ∷ ps) rest hi (a, c) =
    let (h, r) = Climbs-append p.t q ps rest hi c in ((a, h), r)

-- Sessions, each in the order of its times, from one time to another; the next begins later than a
-- gap after the end of the one before.
abbrev pub Sessions : ℕ → ℕ → List (List Point) → ℕ → Type 0
Sessions gap lo [] hi = lo ≤ hi + gap
Sessions gap lo ([] ∷ chunks) hi = ⊥
Sessions gap lo ((p ∷ ps) ∷ chunks) hi =
    (lo ≤ p.t) × Climbs p.t ps (last_t p.t ps) × Sessions gap (last_t p.t ps + gap) chunks hi

pub Climbs-le : (lo : ℕ) (ps : List Point) (hi : ℕ) → Climbs lo ps hi → lo ≤ hi
Climbs-le lo [] hi c = c
Climbs-le lo (p ∷ ps) hi (a, c) = omega (arith, Climbs-le p.t ps hi c)

IsSplit-Sessions :
    (gap lo : ℕ) (prev : Option ℕ) (chunks : List (List Point)) (hi from : ℕ)
    → IsSplit gap prev chunks
    → Climbs from (concat chunks) hi
    → ((t : ℕ) → from ≤ t → After gap prev t → lo ≤ t)
    → lo ≤ hi + gap
    → Sessions gap lo chunks hi
IsSplit-Sessions gap lo prev [] hi from s c h le = le
IsSplit-Sessions gap lo prev ([] ∷ chunks) hi from s c h le = s
IsSplit-Sessions gap lo prev ((p ∷ ps) ∷ chunks) hi from (a, w, s) c h le =
    let ((b, inner), rest) = Climbs-append from p ps (concat chunks) hi c in
    (
      h p.t b a,
      inner,
      IsSplit-Sessions gap (last_t p.t ps + gap) (some (last_t p.t ps)) chunks hi (last_t p.t ps) s
          rest (λ t _ after. omega (arith, after))
          (omega (arith, Climbs-le (last_t p.t ps) (concat chunks) hi rest)),
    )

pub split-Sessions :
    (gap : ℕ) (points : List Point) (hi : ℕ)
    → Climbs 0 points hi
    → Sessions gap 0 (split_on_time_gaps gap points) hi
split-Sessions gap points hi c =
    let (e, s) = split_on_time_gaps-IsSplit gap points in
    IsSplit-Sessions gap 0 none (split_on_time_gaps gap points) hi 0 s
      (subst (λ ps. Climbs 0 ps hi) (sym e) c) (λ t _ _. omega arith) (omega arith)
