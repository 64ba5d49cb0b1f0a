-- ===== src/Tests/Ranges.antt =====
-- The theorem on the reader over HTTP at a file of six bytes and a server that ignores ranges.
use viofosync.Prelude.{◌+◌, ◌≡◌, sym, ◌∙◌, [], ◌∷◌, none, some, take, drop, length, take-length}
use viofosync.Gpx.{Bytes}
use viofosync.RangeReader.{ReadRange, open_reader, of_answer, seek, read}
use viofosync.RangeReader.Answers.{of_answer_whole}
use viofosync.RangeReader.Reads.{IsHonest, IsExact, IsRead, read-read_at}

abbrev file : Bytes
file = 1 ∷ 2 ∷ 3 ∷ 4 ∷ 5 ∷ 6 ∷ []

abbrev ignores_ranges : ReadRange
ignores_ranges a b = of_answer a b (200, file)

ignores_ranges-IsHonest : IsHonest file ignores_ranges
ignores_ranges-IsHonest a b le lt =
    let part = drop a (take (b + 1) file) in
    (length part, of_answer_whole file a b le lt ∙ sym (take-length part))

read-read_at_example :
    IsRead file ignores_ranges ignores_ranges-IsHonest 2 3
      (read ignores_ranges (some 3) (seek ignores_ranges 2 (open_reader ignores_ranges 6 4)))
    × (IsExact file ignores_ranges ignores_ranges-IsHonest
        → (read ignores_ranges (some 3) (seek ignores_ranges 2 (open_reader ignores_ranges 6 4))).0
          ≡ none
        → ⊥)
read-read_at_example = read-read_at file ignores_ranges ignores_ranges-IsHonest 4 2 (some 3)
