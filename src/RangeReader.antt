-- ===== src/RangeReader.antt =====
-- viofosync_lib/_protocol.py: `RangeReader`, the file that is read over HTTP in ranges of bytes. What
-- the server answers to a range is an argument.
pub mod Reads
pub mod Answers
use viofosync.Prelude.{
  ℕ, suc, ◌+◌, ◌-◌, Bool, true, false, ◌&&◌, [], ◌∷◌, ◌++◌, Option, none, some, ltb, leb, ◌==◌,
  if◌then◌else◌, min, length, take, drop,
}
use viofosync.Gpx.{Bytes}

-- `read_range(a, b)`, where `b` is included.
abbrev pub ReadRange : Type 0
ReadRange = ℕ → ℕ → Bytes

-- What `open_remote_reader` makes of an answer: the status and the body.
unfoldable pub of_answer : ℕ → ℕ → ℕ × Bytes → Bytes
of_answer a b (status, body) =
    if (status == 200) && ltb (b - a + 1) (length body) then drop a (take (b + 1) body) else body

pub record Reader : Type 0 where
  pub size : ℕ
  pub pos : ℕ
  pub head : Bytes

module _ (read_range : ReadRange) where
  -- `__init__`
  unfoldable pub open_reader : (size head_len : ℕ) → Reader
  open_reader size head_len =
      let n = min head_len size in
      record { size = size; pos = 0; head = if ltb 0 n then read_range 0 (n - 1) else [] }

  -- `seek`, from the start.
  abbrev pub seek : ℕ → Reader → Reader
  seek pos r = record r { pos = pos }

  -- The bytes from `start` up to `end`.
  unfoldable pub fetch : (start end : ℕ) → Reader → Bytes
  fetch start end r =
      let head_n = length r.head in
      if leb end head_n
      then drop start (take end r.head)
      else if leb head_n start
      then read_range start (end - 1)
      else drop start r.head ++ read_range head_n (end - 1)

  abbrev pub checked : (start end : ℕ) → Bytes → Reader → Option Bytes × Reader
  checked start end bytes r =
      if ltb (length bytes) (end - start)
      then (none, r)
      else (some bytes, record r { pos = start + length bytes })

  abbrev pub asked : Option ℕ → Reader → ℕ
  asked none r = r.size - r.pos
  asked (some n) r = n

  -- `read`, of a negative number when it is none; the result is none when TruncatedRead is raised.
  unfoldable pub read : Option ℕ → Reader → Option Bytes × Reader
  unfolding fetch
  read n r =
      let end = min (r.pos + asked n r) r.size in
      if leb end r.pos then (some [], r) else checked r.pos end (fetch r.pos end r) r
