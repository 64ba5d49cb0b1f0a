-- ===== src/Gpx/Payload.antt =====
-- viofosync_lib/_gpx.py: one GPS payload. The numbers that the payload holds as floats stay their
-- four bytes, since the rules below do not read them.
pub mod Bounds
use viofosync.Prelude.{
  ◌>>=◌, ℕ, zero, suc, ◌+◌, ◌-◌, ◌*◌, ◌≡◌, Bool, true, false, ◌&&◌, ◌||◌, Option, none, some, List,
  [], ◌∷◌, arith, ltb, leb, ◌==◌, if◌then◌else◌, length, take, drop, get_elem?,
}
use viofosync.Prelude.Int.{ℤ, pos, negsuc, sub_ℕ}
use viofosync.Gpx.{Bytes}

-- `struct.unpack_from('<I', data, offset)`: none is struct.error.
unfoldable pub le32_at : Bytes → ℕ → Option ℕ
le32_at payload offset = elim (take 4 (drop offset payload)) [
  | a ∷ b ∷ c ∷ d ∷ [] ↦ some (a + b * 256 + c * 65536 + d * 16777216)
  | _ ↦ none
]

-- One byte decoded: none when it is no character (or not there).
abbrev pub char_of : Option ℕ → Option ℕ
char_of none = none
char_of (some b) = if ltb b 128 then some b else none

abbrev pub char_at : Bytes → ℕ → Option ℕ
char_at payload i = char_of (get_elem? payload i)

abbrev pub one_of : ℕ → ℕ → Option ℕ → Bool
one_of x y none = false
one_of x y (some c) = c == x || c == y

-- A, then N or S, then E or W.
unfoldable pub is_marker : Bytes → ℕ → Bool
is_marker payload pointer =
    one_of b'A' b'A' (char_at payload pointer)
    && one_of b'N' b'S' (char_at payload (pointer + 1))
    && one_of b'E' b'W' (char_at payload (pointer + 2))

-- The loop of `get_gps_offset`: down from a pointer, and never at 0.
unfoldable pub scan : (pointer : ℕ) → Bytes → ℤ
unfolding is_marker
scan zero payload = negsuc 0
scan (suc p) payload =
    let rest = scan p payload in if is_marker payload (suc p) then sub_ℕ (suc p) 24 else rest

unfoldable pub get_gps_offset : Bytes → ℤ
unfolding scan
get_gps_offset payload = scan (length payload - 20) payload

pub record Fix : Type 0 where
  hour : ℕ
  minute : ℕ
  second : ℕ
  year : ℕ
  month : ℕ
  day : ℕ
  lat_hemi : ℕ
  lon_hemi : ℕ
  lat_raw : ℕ
  lon_raw : ℕ
  speed : ℕ
  bearing : ℕ

-- The block under `try`: none is struct.error or UnicodeDecodeError.
unfoldable pub unpack : Bytes → ℕ → Option Fix
unfolding le32_at
unpack payload offset = do
  hour ← le32_at payload offset
  minute ← le32_at payload (offset + 4)
  second ← le32_at payload (offset + 8)
  year ← le32_at payload (offset + 12)
  month ← le32_at payload (offset + 16)
  day ← le32_at payload (offset + 20)
  lat_raw ← le32_at payload (offset + 28)
  lon_raw ← le32_at payload (offset + 32)
  speed ← le32_at payload (offset + 36)
  bearing ← le32_at payload (offset + 40)
  lat_hemi ← char_at payload (offset + 25)
  lon_hemi ← char_at payload (offset + 26)
  some (record {
    hour = hour;
    minute = minute;
    second = second;
    year = year;
    month = month;
    day = day;
    lat_hemi = lat_hemi;
    lon_hemi = lon_hemi;
    lat_raw = lat_raw;
    lon_raw = lon_raw;
    speed = speed;
    bearing = bearing;
  })

unfoldable pub get_gps_data : Bytes → Option Fix
unfolding get_gps_offset unpack
get_gps_data payload = elim (get_gps_offset payload) [
  | negsuc _ ↦ none
  | pos offset ↦ unpack payload offset
]
