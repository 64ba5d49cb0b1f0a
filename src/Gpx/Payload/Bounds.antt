-- ===== src/Gpx/Payload/Bounds.antt =====
-- viofosync_lib/_gpx.py: the reads of get_gps_data stay inside the payload, and its letters decode.
use viofosync.Prelude.{
  ℕ, zero, suc, ◌+◌, ◌-◌, ◌≤◌, ◌<◌, ◌≡◌, refl, Bool, true, false, ◌&&◌, Option, none, some, [], ◌∷◌,
  arith, ◌==◌, length, inl, inr, Bool-cases,
}
use viofosync.Prelude.Int.{pos}
use viofosync.Gpx.{Bytes}
use viofosync.Gpx.Payload.{
  le32_at, char_at, one_of, is_marker, scan, get_gps_offset, Fix, unpack, get_gps_data,
}

-- The last place from which a marker can be read.
abbrev pub IsLastMarker : Bytes → ℕ → Type 0
IsLastMarker payload p =
    (is_marker payload p ≡ true)
    × (p + 20 ≤ length payload)
    × ((q : ℕ) → p < q → q + 20 ≤ length payload → is_marker payload q ≡ false)

scan_last :
    (n : ℕ) (payload : Bytes) (p : ℕ)
    → 24 ≤ p
    → is_marker payload p ≡ true
    → p ≤ n
    → ((q : ℕ) → p < q → q ≤ n → is_marker payload q ≡ false)
    → scan n payload ≡ pos (p - 24)
unfolding scan
scan_last zero payload p big m le later = ground arith
scan_last (suc n) payload p big m le later = elim (Bool-cases (p == suc n)) [
  | inl here ↦
      let e : p ≡ suc n = ground arith in
      let m' : is_marker payload (suc n) ≡ true = rw (← e) m in rw m' (ground arith)
  | inr there ↦
      let lt : p ≤ n = ground arith in
      rw (later (suc n) (omega (arith, lt)) (omega arith))
        (scan_last n payload p big m lt (λ q a b. later q a (omega arith)))
]

le32_at-some :
    (payload : Bytes) (offset : ℕ)
    → offset + 4 ≤ length payload
    → (n : ℕ) × (le32_at payload offset ≡ some n)
unfolding le32_at
le32_at-some [] offset h = absurd (omega arith)
le32_at-some (a ∷ s) (suc k) h = le32_at-some s k (omega arith)
le32_at-some (a ∷ []) zero h = absurd (omega arith)
le32_at-some (a ∷ b ∷ []) zero h = absurd (omega arith)
le32_at-some (a ∷ b ∷ c ∷ []) zero h = absurd (omega arith)
le32_at-some (a ∷ b ∷ c ∷ d ∷ s) zero h = (_, refl)

letter_at :
    (x y : ℕ) (o : Option ℕ)
    → one_of x y o ≡ true
    → (c : ℕ) × (o ≡ some c) × (one_of x y (some c) ≡ true)
letter_at x y none h = ground arith
letter_at x y (some c) h = (c, refl, h)

and_parts : (a b c : Bool) → (a && b && c) ≡ true → (b ≡ true) × (c ≡ true)
and_parts a b c h = (ground arith, ground arith)

abbrev pub IsFix : Bytes → Option Fix → Type 0
IsFix payload found =
    (fix : Fix) × (found ≡ some fix)
    × (one_of b'N' b'S' (some fix.lat_hemi) ≡ true)
    × (one_of b'E' b'W' (some fix.lon_hemi) ≡ true)

unpack-IsFix :
    (payload : Bytes) (k : ℕ)
    → k + 44 ≤ length payload
    → is_marker payload (k + 24) ≡ true
    → IsFix payload (unpack payload k)
unfolding unpack is_marker
unpack-IsFix payload k h m =
    let parts : (one_of b'N' b'S' (char_at payload (k + 24 + 1)) ≡ true)
        × (one_of b'E' b'W' (char_at payload (k + 24 + 2)) ≡ true) =
      and_parts (one_of b'A' b'A' (char_at payload (k + 24))) _ _ m in
    let second : k + 24 + 1 ≡ k + 25 = omega arith in
    let third : k + 24 + 2 ≡ k + 26 = omega arith in
    let lat = letter_at b'N' b'S' (char_at payload (k + 25)) (rw second at parts.0) in
    let lon = letter_at b'E' b'W' (char_at payload (k + 26)) (rw third at parts.1) in
    let a = le32_at-some payload k (omega arith) in
    let b = le32_at-some payload (k + 4) (omega arith) in
    let c = le32_at-some payload (k + 8) (omega arith) in
    let d = le32_at-some payload (k + 12) (omega arith) in
    let e = le32_at-some payload (k + 16) (omega arith) in
    let f = le32_at-some payload (k + 20) (omega arith) in
    let g = le32_at-some payload (k + 28) (omega arith) in
    let i = le32_at-some payload (k + 32) (omega arith) in
    let j = le32_at-some payload (k + 36) (omega arith) in
    let l = le32_at-some payload (k + 40) (omega arith) in
    let fix : Fix = record {
      hour = a.0;
      minute = b.0;
      second = c.0;
      year = d.0;
      month = e.0;
      day = f.0;
      lat_hemi = lat.0;
      lon_hemi = lon.0;
      lat_raw = g.0;
      lon_raw = i.0;
      speed = j.0;
      bearing = l.0;
    } in
    (fix, rw (a.1, b.1, c.1, d.1, e.1, f.1, g.1, i.1, j.1, l.1, lat.1, lon.1) refl, lat.2, lon.2)

-- When the last marker of a payload has at least 24 bytes before it, all reads of get_gps_data are
-- inside the payload and both letters decode: it returns a fix, whose hemispheres are N or S and E
-- or W.
pub get_gps_data-IsFix :
    (payload : Bytes) (p : ℕ)
    → IsLastMarker payload p
    → 24 ≤ p
    → IsFix payload (get_gps_data payload)
unfolding get_gps_data get_gps_offset
get_gps_data-IsFix payload p (m, room, last) big =
    let found : scan (length payload - 20) payload ≡ pos (p - 24) =
      scan_last (length payload - 20) payload p big m (omega arith)
        (λ q a b. last q a (omega arith)) in
    let e : p - 24 + 24 ≡ p = omega arith in
    let marked : is_marker payload (p - 24 + 24) ≡ true = rw e m in
    rw (get_gps_data, get_gps_offset, found) (unpack-IsFix payload (p - 24) (omega arith) marked)
