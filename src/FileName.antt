-- ===== src/FileName.antt =====
-- viofosync_lib/_archive.py (`downloaded_filename_re`), the filename helpers of
-- web/services/queue.py, and the SQL fragments of web/services/naming.py, as functions.
-- Names are ASCII; a group of the regular expression is the text that it matched.
pub mod Layout
pub mod Ends
pub mod Agreement
pub mod CaptureKey
use viofosync.Prelude.{
  ◌>>=◌, ℕ, zero, suc, ◌≡◌, refl, Bool, true, false, not, ◌&&◌, ◌||◌, List, [], ◌∷◌, ◌++◌, map,
  Option, none, some, ltb, ◌==◌, if◌then◌else◌, length, take, drop, select, any,
}
use viofosync.Prelude.Text.{
  Text, codes, text_eq, text_leb, upper, is_digit, is_alpha, from_end, fold_case,
}
use viofosync.Camera.{camera_letters, gps_camera_letter}

pub record Match : Type 0 where
  pub year : Text
  pub month : Text
  pub day : Text
  pub hour : Text
  pub minute : Text
  pub second : Text
  pub sequence : Text
  pub camera : Text

-- `\d{n}`
digits : ℕ → Text → Option (Text × Text)
digits zero s = some ([], s)
digits (suc n) [] = none
digits (suc n) (c ∷ s) =
    let rest = digits n s in if is_digit c then (rest >>= λ (d, s'). some (c ∷ d, s')) else none

-- `_?`
separator : Text → Text
separator [] = []
separator (c ∷ s) = if c == b'_' then s else c ∷ s

-- The longest prefix in a class of characters, `\d*` or `[A-Za-z]*`.
span : (ℕ → Bool) → Text → Text × Text
span p [] = ([], [])
span p (c ∷ s) = let (d, r) = span p s in if p c then (c ∷ d, r) else ([], c ∷ s)

-- `_(?=[0-9A-Za-z])`
mark : Text → Option Text
mark [] = none
mark (c ∷ []) = none
mark (c ∷ d ∷ s) = if c == b'_' && (is_digit d || is_alpha d) then some (d ∷ s) else none

-- `\.MP4$` without regard to case; `$` also matches before a final newline.
is_extension : Text → Bool
unfolding text_eq fold_case
is_extension s = text_eq (fold_case s) (codes ".MP4") || text_eq (fold_case s) (codes ".MP4\n")

-- `downloaded_filename_re.match`. No character belongs to two neighbouring parts, so the
-- expression never backtracks.
unfoldable pub parse : Text → Option Match
unfolding digits separator span mark is_extension
parse s = do
  (year, s) ← digits 4 s
  (month, s) ← digits 2 (separator s)
  (day, s) ← digits 2 s
  (hour, s) ← digits 2 (separator s)
  (minute, s) ← digits 2 s
  (second, s) ← digits 2 s
  s ← mark s
  let sq = span is_digit s
  let cam = span is_alpha sq.1
  if is_extension cam.1
      then some (record {
        year = year;
        month = month;
        day = day;
        hour = hour;
        minute = minute;
        second = second;
        sequence = sq.0;
        camera = cam.0;
      })
      else none

-- queue.py

-- `letters[-1]`
abbrev pub last_or : ℕ → Text → ℕ
last_or d [] = d
last_or d (c ∷ s) = last_or c s

unfoldable pub mem_char : ℕ → Text → Bool
mem_char c s = any (λ d. d == c) s

-- The registry's shapes: a letter, or `P` or `E` and a letter.
unfoldable pub known_letters : Text → Option Text
unfolding mem_char
known_letters [] = some []
known_letters (a ∷ []) = if mem_char a (map upper camera_letters) then some (a ∷ []) else none
known_letters (a ∷ b ∷ []) =
    if mem_char b (map upper camera_letters)
    then if mem_char a (codes "PE") then some (a ∷ b ∷ []) else none
    else none
known_letters (a ∷ b ∷ c ∷ s) = none

unfoldable pub suffix_letters : Text → Option Text
suffix_letters filename = do m ← parse filename; known_letters (map upper m.camera)

-- `letters[-1] if letters else GPS_CAMERA_LETTER`
unfoldable pub camera_of_letters : Text → ℕ
camera_of_letters letters = last_or gps_camera_letter letters

pub data Event : Type 0 where
  normal parking event : Event

-- `{"P": "parking", "E": "event"}.get(letters[:-1], "normal")`
unfoldable pub event_of_letters : Text → Event
event_of_letters (a ∷ b ∷ []) = if a == b'P' then parking else if a == b'E' then event else normal
event_of_letters s = normal

unfoldable pub camera_from_filename : Text → Option ℕ
camera_from_filename filename = do l ← suffix_letters filename; some (camera_of_letters l)

unfoldable pub event_from_filename : Text → Option Event
event_from_filename filename = do l ← suffix_letters filename; some (event_of_letters l)

-- naming.py. An empty `substr` is `none`, and passes no test.

abbrev is_char : (ℕ → Bool) → Option ℕ → Bool
is_char p none = false
is_char p (some c) = p c

unfoldable pub suffixless_sql : Text → Bool
suffixless_sql col = is_char is_digit (from_end 5 col)

unfoldable pub gps_lens_sql : Text → Bool
unfolding suffixless_sql
gps_lens_sql col =
    is_char (λ c. upper c == gps_camera_letter) (from_end 5 col) || suffixless_sql col

unfoldable pub camera_letter_sql : Text → Option ℕ
camera_letter_sql col =
    if suffixless_sql col then some gps_camera_letter else (from_end 5 col >>= λ c. some (upper c))

-- `upper(substr(col, -6, 1)) = c`
unfoldable pub event_prefix_is : ℕ → Text → Bool
event_prefix_is p col = is_char (λ c. upper c == p) (from_end 6 col)

unfoldable pub event_type_sql : Text → Event
unfolding event_prefix_is
event_type_sql col =
    if event_prefix_is b'P' col then parking else if event_prefix_is b'E' col then event else normal

unfoldable pub is_registry_camera_sql : Text → Bool
unfolding camera_letter_sql mem_char
is_registry_camera_sql col = is_char (λ c. mem_char c camera_letters) (camera_letter_sql col)

-- `substr(replace(substr(col, 1, 16), '_', ''), 1, 14)`
unfoldable pub capture_key_sql : Text → Text
capture_key_sql col = take 14 (select (λ c. not (c == b'_')) (take 16 col))

-- `YYYY-MM-DD`
unfoldable pub day_key_sql : Text → Text
unfolding capture_key_sql
day_key_sql col =
    let s = capture_key_sql col in
    take 4 s ++ (b'-' ∷ take 2 (drop 4 s) ++ (b'-' ∷ take 2 (drop 6 s)))

-- Same-capture siblings share the first 16 characters; `f` is the candidate.
unfoldable pub gps_sibling_sql : Text → Text → Bool
unfolding gps_lens_sql
gps_sibling_sql f dq =
    text_leb (take 16 dq) f && not (text_leb (take 16 dq ++ b'~' ∷ []) f) && gps_lens_sql f
