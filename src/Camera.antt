-- ===== src/Camera.antt =====
-- viofosync_lib/cameras.py: the registry of lenses, and what a clip's camera code says.
pub mod Codes
use viofosync.Prelude.{
  ℕ, ◌≡◌, refl, Bool, true, false, List, [], ◌∷◌, map, Option, none, some, ◌==◌, if◌then◌else◌,
}
use viofosync.Prelude.Text.{Text, codes, upper}

pub record Camera : Type 0 where
  pub letter : ℕ
  pub channel : Text
  pub label : Text
  pub gps : Bool

-- Declaration order is display order.
abbrev pub cameras : List Camera
cameras =
    record { letter = b'F'; channel = codes "front"; label = codes "Front"; gps = true }
    ∷ record { letter = b'R'; channel = codes "rear"; label = codes "Rear"; gps = false }
    ∷ record { letter = b'T'; channel = codes "tele"; label = codes "Tele"; gps = false }
    ∷ record { letter = b'I'; channel = codes "interior"; label = codes "Interior"; gps = false }
    ∷ []

abbrev pub camera_letters : Text
camera_letters = map (λ c. c.letter) cameras

-- `next(c.letter for c in CAMERAS if c.gps)`; the registry has such a lens, so 0 is not reached.
unfoldable pub first_gps : List Camera → ℕ
first_gps [] = 0
first_gps (c ∷ cs) = if c.gps then c.letter else first_gps cs

unfoldable pub gps_camera_letter : ℕ
unfolding first_gps
gps_camera_letter = first_gps cameras

-- `camera[-1].upper()`, for a code that is not empty.
unfoldable pub lens_of : Text → Option ℕ
lens_of [] = none
lens_of (c ∷ []) = some (upper c)
lens_of (c ∷ d ∷ s) = lens_of (d ∷ s)

-- A code is the lens's letter, with an optional parking or event prefix; `None` is `none`.
lens : Option Text → Option ℕ
unfolding lens_of
lens none = none
lens (some s) = lens_of s

gps_lens : Option ℕ → Bool
unfolding gps_camera_letter
gps_lens none = false
gps_lens (some c) = c == gps_camera_letter

unfoldable pub is_gps_camera : Option Text → Bool
unfolding lens gps_lens
is_gps_camera camera = gps_lens (lens camera)

-- `CHANNEL_FOR_LETTER.get(letter, default)`
unfoldable pub channel_for_letter : List Camera → ℕ → Text → Text
channel_for_letter [] c default = default
channel_for_letter (k ∷ ks) c default =
    if k.letter == c then k.channel else channel_for_letter ks c default

channel_or : Text → Option ℕ → Text
unfolding channel_for_letter
channel_or default none = default
channel_or default (some c) = channel_for_letter cameras c default

unfoldable pub channel_of : Option Text → Text
unfolding channel_or lens
channel_of camera = channel_or (codes "other") (lens camera)

unfoldable pub pair_slot_of : Option Text → Text
unfolding channel_or lens
pair_slot_of camera = channel_or (codes "rear") (lens camera)
