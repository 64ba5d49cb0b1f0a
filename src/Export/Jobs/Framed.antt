-- ===== src/Export/Jobs/Framed.antt =====
-- web/services/exporter.py: the window that a timeline job's row records.
use viofosync.Prelude.{sym, ◌∙◌, ℕ, ◌/◌, ◌≡◌, ap, List, [], ◌∷◌, Option, none, some, All}
use viofosync.Export.{Segment, first_start, last_end}
use viofosync.Export.Jobs.{ExportJob, Exports, timeline_job, Payload, with_ids, with_segments}
use viofosync.Export.Jobs.Rowwise.{Reachable-AllRows}
use viofosync.Export.Jobs.Steps.{Reachable}

-- A timeline job's row records, in seconds, the window of its segments.
abbrev pub Framed : ExportJob → Type 0
Framed j =
    (g : Segment) (segs : List Segment)
    → j.payload ≡ with_segments (g ∷ segs)
    → (j.clip_start ≡ some (first_start g segs / 1000))
      × (j.clip_end ≡ some (last_end g segs / 1000))

with_ids-Framed :
    (ids : List ℕ) (g : Segment) (segs : List Segment) → with_ids ids ≡ with_segments (g ∷ segs) → ⊥
with_ids-Framed ids g segs e = cc

segments_of : Payload → List Segment
segments_of (with_segments segs) = segs
segments_of p = []

timeline_job-Framed :
    (now n : ℕ) (g : Segment) (segs : List Segment) → Framed (timeline_job now n g segs)
unfolding timeline_job segments_of
timeline_job-Framed now n g segs g' segs' p =
    let e : g ∷ segs ≡ g' ∷ segs' = ap segments_of p in (ap start e, ap stop e)
  where
    start : List Segment → Option ℕ
    start [] = none
    start (x ∷ xs) = some (first_start x xs / 1000)

    stop : List Segment → Option ℕ
    stop [] = none
    stop (x ∷ xs) = some (last_end x xs / 1000)

pub Reachable-Framed : (s : Exports) → Reachable s → All Framed s.jobs
Reachable-Framed =
    Reachable-AllRows Framed (λ state x f. f) (λ now x f. f) (λ now x f. f)
      (λ now i ok error output x e o f. f)
      (λ ids j p o g segs w. absurd (with_ids-Framed ids g segs (sym p ∙ w))) timeline_job-Framed
