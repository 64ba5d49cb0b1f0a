-- ===== src/Tests/Renders.antt =====
-- The theorems on exports at an archive of two clips and a timeline job that is being rendered.
use mathlib.Core.List.{Memᴰ}
use viofosync.Prelude.{
  ℕ, ◌≤◌, ◌≡◌, refl, true, false, [], ◌∷◌, Option, none, some, arith, map, count, any, All, ◌==◌,
}
use viofosync.Prelude.Text.{Text, codes}
use viofosync.Retention.{Clip, Store}
use viofosync.Retention.Sweep.{Swept, sweep}
use viofosync.Export.{Segment, Take, build_switch_pieces}
use viofosync.Export.Within.{IsWithin, build_switch_pieces-IsWithin}
use viofosync.Export.Jobs.{
  running, ExportJob, Exports, is_rendering, pop_next, pause, enqueue_timeline, timeline_job, is_in,
  done,
}
use viofosync.Export.Jobs.Finish.{rendered, process_job}
use viofosync.Export.Jobs.Protect.{export_protect_ids}
use viofosync.Export.Jobs.Steps.{
  Reachable, at_first, and_then, enqueues_timeline, pops, pauses, renders,
}
use viofosync.Export.Jobs.Single.Reaches.{one_job_renders}
use viofosync.Export.Jobs.Kept.Reaches.{Reachable-Kept}
use viofosync.Export.Footage.{reads, indexed_as, sweep_keeps_footage}
use viofosync.Tests.Archive.{disk, old_clip, archive, rules, archive-UniqueIds}

abbrev front_segment : Segment
front_segment = record { channel = codes "front"; start_ts = 120000; end_ts = 150000; pip = none }

abbrev idle : Exports
idle = record {
  jobs = [];
  next_id = 1;
  current = none;
  cancel_current = false;
  is_paused = false;
  partials = [];
  finals = [];
}

abbrev asked : Exports
unfolding timeline_job
asked = record idle { jobs = timeline_job 900 1 front_segment [] ∷ []; next_id = 2 }

abbrev rendering : Exports
rendering = pop_next 901 asked

rendering-Reachable : Reachable rendering
unfolding enqueue_timeline timeline_job
rendering-Reachable =
    and_then (and_then at_first (enqueues_timeline 900 (front_segment ∷ []) refl)) (pops 901 refl)

abbrev stopped : Exports
stopped = (pause 1 rendering).1

one_job_renders_example :
    (count is_rendering stopped.jobs ≤ 1)
    × All (λ j. is_rendering j ≡ true → stopped.current ≡ some j.id) stopped.jobs
    × All (λ j. stopped.cancel_current ≡ true → stopped.current ≡ some j.id → ⊥) stopped.jobs
one_job_renders_example = one_job_renders stopped (and_then rendering-Reachable (pauses 1))

abbrev finished : Exports
finished = process_job 960 (rendered true true none) rendering

Reachable-Kept_example :
    All
      (λ j.
        is_in done j ≡ true
        → (j.output_path ≡ some j.id) × (any (λ k. k == j.id) finished.finals ≡ true))
      finished.jobs
Reachable-Kept_example =
    Reachable-Kept finished
      (and_then rendering-Reachable (renders 960 (rendered true true none) (λ e. cc)))

abbrev front : Clip → Option Text
front c = some (codes "F")

abbrev one_minute : Clip → Option ℕ
one_minute c = some 60000

abbrev rendered_job : ExportJob
unfolding timeline_job
rendered_job = record (timeline_job 900 1 front_segment []) {
  state = running;
  started_at = some 901;
}

sweep_keeps_footage_example :
    (r : Store ℕ × Option Swept) × (sweep disk
        (record rules {
          protect_ids =
              export_protect_ids (map (indexed_as front one_minute) archive.clips) rendering.jobs;
        })
        9000000
        30
        archive
      ≡ some r)
    × Memᴰ old_clip r.0.clips
unfolding pop_next timeline_job indexed_as reads
sweep_keeps_footage_example =
    sweep_keeps_footage disk rules 9000000 30 archive old_clip front one_minute rendering
      rendered_job archive-UniqueIds (Memᴰ.head refl) rendering-Reachable (Memᴰ.head refl)
      (refl, refl) refl (omega arith)

abbrev take : ℕ → Take
take start = record {
  path = codes "day/a.MP4";
  channel = codes "front";
  start_ts = start;
  duration = some 60000;
}

build_switch_pieces-IsWithin_example :
    All
      (IsWithin (front_segment ∷ []) (take 100000 ∷ take 140000 ∷ []))
      (build_switch_pieces (front_segment ∷ []) (take 100000 ∷ take 140000 ∷ []))
build_switch_pieces-IsWithin_example =
    build_switch_pieces-IsWithin (front_segment ∷ []) (take 100000 ∷ take 140000 ∷ [])
