-- ===== src/Export.antt =====
-- web/services/exporter.py: the plan of a timeline export, and the clips that an export protects
-- from retention. Times are milliseconds, which the code rounds its seconds to; the timestamps of
-- the index are whole seconds.
pub mod Jobs
pub mod Footage
pub mod Within
use viofosync.Prelude.{
  ℕ, zero, suc, ◌+◌, ◌-◌, ◌*◌, ◌/◌, Bool, true, false, not, ◌&&◌, ◌||◌, List, [], ◌∷◌, ◌++◌, map,
  Option, none, some, ltb, leb, ◌==◌, if◌then◌else◌, is_none, min, max, select, any,
}
use viofosync.Prelude.Text.{Text, codes, text_eq}
use viofosync.Camera.{channel_of}

abbrev pub min_piece_ms : ℕ
min_piece_ms = 50

abbrev pub timeline_protect_margin_s : ℕ
timeline_protect_margin_s = 600

pub record Segment : Type 0 where
  pub channel : Text
  pub start_ts : ℕ
  pub end_ts : ℕ
  pub pip : Option Text

-- A clip with its channel, as the plan reads it.
pub record Take : Type 0 where
  pub path : Text
  pub channel : Text
  pub start_ts : ℕ
  pub duration : Option ℕ

abbrev pub length_of : Option ℕ → ℕ
length_of none = 0
length_of (some n) = n

abbrev pub end_of_take : Take → ℕ
end_of_take c = c.start_ts + length_of c.duration

pub record Piece : Type 0 where
  pub path : Text
  pub ss : ℕ
  pub t : ℕ
  pub ts : ℕ
  pub pip : Option Text

-- The clips of the segment's channel that overlap it.
unfoldable pub overlaps : Segment → Take → Bool
unfolding text_eq
overlaps seg c =
    text_eq c.channel seg.channel && ltb c.start_ts seg.end_ts && ltb seg.start_ts (end_of_take c)

-- `sorted(…, key=start_ts)`
unfoldable pub insert_take : Take → List Take → List Take
insert_take c [] = c ∷ []
insert_take c (d ∷ ds) = if leb c.start_ts d.start_ts then c ∷ d ∷ ds else d ∷ insert_take c ds

unfoldable pub by_start : List Take → List Take
unfolding insert_take
by_start [] = []
by_start (c ∷ cs) = insert_take c (by_start cs)

-- The piece of a clip, unless it is too short; a clip that overlaps ends after the segment starts.
unfoldable pub piece_of : Segment → Take → List Piece
piece_of seg c =
    let from = max seg.start_ts c.start_ts - c.start_ts in
    let to = min seg.end_ts (end_of_take c) - c.start_ts in
    if leb (from + min_piece_ms) to
    then record {
      path = c.path;
      ss = from;
      t = to - from;
      ts = max seg.start_ts c.start_ts;
      pip = seg.pip;
    }
      ∷ []
    else []

unfoldable pub pieces_from : Segment → List Take → List Piece
unfolding piece_of
pieces_from seg [] = []
pieces_from seg (c ∷ cs) = piece_of seg c ++ pieces_from seg cs

unfoldable pub build_switch_pieces : List Segment → List Take → List Piece
unfolding overlaps by_start pieces_from
build_switch_pieces [] clips = []
build_switch_pieces (seg ∷ segs) clips =
    pieces_from seg (by_start (select (overlaps seg) clips)) ++ build_switch_pieces segs clips

-- The first clip of a channel that covers an instant.
unfoldable pub find_clip_at : List Take → Text → ℕ → Option Take
unfolding text_eq
find_clip_at [] channel ts = none
find_clip_at (c ∷ clips) channel ts =
    if text_eq c.channel channel && leb c.start_ts ts && ltb ts (end_of_take c)
    then some c
    else find_clip_at clips channel ts

-- A row of `clip_index`, with its duration in milliseconds.
pub record Indexed : Type 0 where
  pub id : ℕ
  pub path : Text
  pub camera : Option Text
  pub timestamp : ℕ
  pub duration : Option ℕ

abbrev pub first_start : Segment → List Segment → ℕ
first_start s [] = s.start_ts
first_start s (r ∷ segs) = min s.start_ts (first_start r segs)

abbrev pub last_end : Segment → List Segment → ℕ
last_end s [] = s.end_ts
last_end s (r ∷ segs) = max s.end_ts (last_end r segs)

-- The WHERE of `_run_timeline`.
abbrev pub in_window : ℕ → ℕ → Indexed → Bool
in_window lo hi r =
    ltb (r.timestamp * 1000) hi
    && (ltb lo (r.timestamp * 1000 + length_of r.duration)
        || is_none r.duration && ltb lo (r.timestamp * 1000 + timeline_protect_margin_s * 1000))

-- `probe_and_store`, for a clip whose duration is not known.
abbrev pub probed : (ℕ → Option ℕ) → Indexed → Option ℕ
probed probe r = elim r.duration [ none ↦ probe r.id | some n ↦ some n ]

abbrev pub take_of : (ℕ → Option ℕ) → Indexed → Take
take_of probe r = record {
  path = r.path;
  channel = channel_of r.camera;
  start_ts = r.timestamp * 1000;
  duration = probed probe r;
}

-- The clips that a timeline export has to choose from.
unfoldable pub takes_of : (ℕ → Option ℕ) → Segment → List Segment → List Indexed → List Take
takes_of probe s segs rows =
    map (take_of probe) (select (in_window (first_start s segs) (last_end s segs)) rows)

-- The pictures and the sound of a timeline export.
unfoldable pub timeline_pieces :
    (ℕ → Option ℕ) → Segment → List Segment → List Indexed → List Piece × List Piece
unfolding build_switch_pieces takes_of
timeline_pieces probe s segs rows =
    let clips = takes_of probe s segs rows in
    (
      build_switch_pieces (s ∷ segs) clips,
      build_switch_pieces
          (record {
            channel = codes "front";
            start_ts = first_start s segs;
            end_ts = last_end s segs;
            pip = none;
          }
            ∷ [])
          clips,
    )
