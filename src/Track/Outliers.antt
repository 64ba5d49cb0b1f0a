-- ===== src/Track/Outliers.antt =====
-- web/services/gps.py: what sorting and dropping outliers leave of the points of a day.
use mathlib.Core.Path.{subst}
use viofosync.Prelude.{
  sym, ℕ, suc, ◌+◌, ◌-◌, ◌≤◌, ◌<◌, ◌≡◌, refl, Bool, List, [], ◌∷◌, arith, ltb, leb, length, drop,
  min, max, inl, inr, Bool-cases, length-take, length-drop,
}
use viofosync.Track.{
  Point, Climbs, insert, sort, center_of, window, keep_near, half_of, filter_outliers,
}

window_inside :
    (half : ℕ) (points : List Point) (idx : ℕ)
    → half + half + 1 ≤ length points
    → idx < length points
    → let first = center_of half (length points) idx - half in
      (length (window half points idx) ≡ half + half + 1)
      × (first ≤ idx)
      × (idx ≤ first + half + half)
unfolding window center_of
window_inside half points idx long inside =
    let n = length points in
    let first = min (max idx half) (n - 1 - half) - half in
    (
      omega (arith, length-take (half + half + 1) (drop first points), length-drop first points),
      omega arith,
      omega arith,
    )

-- On a track of at least three fixes, the window of every fix has its full size, five or three
-- fixes, and holds the fix itself, also at the ends of the track.
pub window-half_of :
    (points : List Point) (idx : ℕ)
    → 3 ≤ length points
    → idx < length points
    → let half = half_of (length points) in
      let first = center_of half (length points) idx - half in
      (length (window half points idx) ≡ half + half + 1)
      × (first ≤ idx)
      × (idx ≤ first + half + half)
window-half_of points idx long inside =
    window_inside (half_of (length points)) points idx (ground arith) inside

Climbs-mono :
    (lo lo' : ℕ) (ps : List Point) (hi hi' : ℕ)
    → Climbs lo ps hi
    → lo' ≤ lo
    → hi ≤ hi'
    → Climbs lo' ps hi'
Climbs-mono lo lo' [] hi hi' c l h = omega arith
Climbs-mono lo lo' (p ∷ ps) hi hi' (a, c) l h =
    (omega (arith, a), Climbs-mono p.t p.t ps hi hi' c (omega arith) h)

insert-Climbs :
    (lo : ℕ) (p : Point) (ps : List Point) (hi : ℕ)
    → Climbs lo ps hi
    → lo ≤ p.t
    → Climbs lo (insert p ps) (max hi p.t)
unfolding insert
insert-Climbs lo p [] hi c le = (le, omega arith)
insert-Climbs lo p (q ∷ ps) hi (a, c) le = elim (Bool-cases (leb p.t q.t)) [
  | inl first ↦
      rw first
        (le, (ground arith, Climbs-mono q.t q.t ps hi (max hi p.t) c (omega arith) (omega arith)))
  | inr later ↦ rw later (a, insert-Climbs q.t p ps hi c (ground arith))
]

pub sort-Climbs : (ps : List Point) → (hi : ℕ) × Climbs 0 (sort ps) hi
unfolding sort
sort-Climbs [] = (0, omega arith)
sort-Climbs (p ∷ ps) =
    let (hi, c) = sort-Climbs ps in (max hi p.t, insert-Climbs 0 p (sort ps) hi c (omega arith))

keep_near-Climbs :
    (far : Point → List Point → Bool) (half : ℕ) (points : List Point) (idx lo : ℕ)
    (ps : List Point) (hi : ℕ)
    → Climbs lo ps hi
    → Climbs lo (keep_near far half points idx ps) hi
unfolding keep_near
keep_near-Climbs far half points idx lo [] hi c = c
keep_near-Climbs far half points idx lo (p ∷ ps) hi (a, c) =
    elim (Bool-cases (far p (window half points idx))) [
      | inl out ↦ rw out (
          keep_near-Climbs far half points (suc idx) lo ps hi
            (Climbs-mono p.t lo ps hi hi c a (omega arith)))
      | inr kept ↦ rw kept (a, keep_near-Climbs far half points (suc idx) p.t ps hi c)
    ]

pub filter_outliers-Climbs :
    (far : Point → List Point → Bool) (ps : List Point) (hi : ℕ)
    → Climbs 0 ps hi
    → Climbs 0 (filter_outliers far ps) hi
unfolding filter_outliers
filter_outliers-Climbs far ps hi c = elim (Bool-cases (ltb (length ps) 3)) [
  | inl few ↦ subst (λ x. Climbs 0 x hi) (sym (rw (filter_outliers, few) refl)) c
  | inr enough ↦
      subst (λ x. Climbs 0 x hi) (sym (rw (filter_outliers, enough) refl))
        (keep_near-Climbs far (half_of (length ps)) ps 0 0 ps hi c)
]
