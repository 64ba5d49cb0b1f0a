-- ===== src/Export/Jobs/Protect.antt =====
-- web/services/exporter.py: `export_protect_ids`, the clips that retention keeps for the jobs.
use viofosync.Prelude.{
  ℕ, ◌+◌, Bool, ◌&&◌, ◌||◌, List, [], ◌∷◌, ◌++◌, map, Option, none, some, leb, if◌then◌else◌,
  select,
}
use viofosync.Export.{Indexed, timeline_protect_margin_s}
use viofosync.Export.Jobs.{queued, with_ids, bare_list, unreadable, ExportJob, is_in, is_rendering}

abbrev pub is_unfinished : ExportJob → Bool
is_unfinished j = is_in queued j || is_rendering j

abbrev pub ids_between : Option ℕ → Option ℕ → List Indexed → List ℕ
ids_between none hi index = []
ids_between (some lo) none index = []
ids_between (some lo) (some hi) index =
    map (λ r. r.id)
      (select (λ r. leb lo (r.timestamp + timeline_protect_margin_s) && leb r.timestamp hi) index)

unfoldable pub ids_of_job : List Indexed → ExportJob → List ℕ
ids_of_job index j = elim j.payload [
  | with_ids (i ∷ ids) ↦ i ∷ ids
  | bare_list ids ↦ ids
  | unreadable ↦ []
  | _ ↦ ids_between j.clip_start j.clip_end index
]

unfoldable pub export_protect_ids : List Indexed → List ExportJob → List ℕ
unfolding ids_of_job
export_protect_ids index [] = []
export_protect_ids index (j ∷ jobs) =
    let rest = export_protect_ids index jobs in
    if is_unfinished j then ids_of_job index j ++ rest else rest
