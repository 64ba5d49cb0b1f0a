-- ===== src/Camera/Codes.antt =====
-- Camera codes, as the two lookups of cameras.py and the GPS test read them.
use viofosync.Prelude.{
  ℕ, ◌≡◌, refl, inl, inr, [], ◌∷◌, ◌++◌, Option, none, some, arith, ◌==◌, if◌then◌else◌, Bool-cases,
  ==_iff,
}
use viofosync.Prelude.Text.{Text, codes, upper, text_eq}
use viofosync.Camera.{
  cameras, lens_of, lens, gps_lens, gps_camera_letter, is_gps_camera, channel_for_letter,
  channel_or, channel_of, pair_slot_of,
}

-- A prefix does not change the lens: the last letter decides.
pub lens_of-append : (p : Text) (c : ℕ) → lens_of (p ++ c ∷ []) ≡ some (upper c)
unfolding lens_of
lens_of-append [] c = refl
lens_of-append (a ∷ []) c = refl
lens_of-append (a ∷ b ∷ p) c = lens_of-append (b ∷ p) c

letter_slots :
    (c : ℕ)
    → ((c == gps_camera_letter)
        ≡ text_eq (channel_for_letter cameras c (codes "other")) (codes "front"))
      × (channel_for_letter cameras c (codes "rear") ≡ (
          if text_eq (channel_for_letter cameras c (codes "other")) (codes "other")
          then codes "rear"
          else channel_for_letter cameras c (codes "other")))
unfolding channel_for_letter text_eq gps_camera_letter
letter_slots c = elim (Bool-cases (b'F' == c)) [
  | inl f ↦ let e = (==_iff b'F' c).0 f in rw (← e) (refl, refl)
  | inr f ↦ ground arith
]

lens_slots :
    (l : Option ℕ)
    → (gps_lens l ≡ text_eq (channel_or (codes "other") l) (codes "front"))
      × (channel_or (codes "rear") l ≡ (
          if text_eq (channel_or (codes "other") l) (codes "other")
          then codes "rear"
          else channel_or (codes "other") l))
unfolding gps_lens channel_or text_eq
lens_slots none = (refl, refl)
lens_slots (some c) = letter_slots c

-- For every camera code, missing and unknown ones included: it is GPS-bearing exactly when its
-- channel is `front`, and its pair slot is its channel, but `rear` where the channel is `other`.
pub channel_of-pair_slot_of :
    (camera : Option Text)
    → (is_gps_camera camera ≡ text_eq (channel_of camera) (codes "front"))
      × (pair_slot_of camera ≡ (
          if text_eq (channel_of camera) (codes "other") then codes "rear" else channel_of camera))
unfolding is_gps_camera channel_of pair_slot_of
channel_of-pair_slot_of camera = lens_slots (lens camera)
