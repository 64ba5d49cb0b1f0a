-- ===== src/Tests/Reads.antt =====
-- The theorems on GPS triage at a small queue.
use mathlib.Core.List.{Memᴰ}
use viofosync.Prelude.{ℕ, ◌+◌, ◌-◌, ◌≤◌, ◌≡◌, refl, true, false, [], ◌∷◌, none, some, arith}
use viofosync.Prelude.Text.{Text, codes, text_eq, from_end, upper, text_leb, is_digit, is_alpha}
use viofosync.Camera.{gps_camera_letter}
use viofosync.FileName.{
  gps_lens_sql, capture_key_sql, event_from_filename, suffix_letters, parse, known_letters,
  event_of_letters,
}
use viofosync.Queue.Table.{update}
use viofosync.Queue.Row.{pending, Row, newest_capture, is_newest, is_active}
use viofosync.Queue.Reconcile.{new_row}
use viofosync.Triage.{
  points, raises, url_error, World, is_target, insert_by_age, targets_in, select_targets,
  sweep_orphans, triage_one, settle_row, target_of,
}
use viofosync.Triage.Pool.{
  max_concurrency, abort_after_failures, Pool, start_pass, begin_work, end_work, Runs, stays,
  begins, ends,
}
use viofosync.Triage.Pool.Breaker.{Fails, start_pass-reads}
use viofosync.Triage.Pool.Pass.{AnswersAt, pass-targets}

abbrev clip_at : ℕ → Text → Row
unfolding new_row
clip_at id name = new_row pending none 10 id name (record {
  filename = name;
  filepath = codes "A:/DCIM/Movie";
  size = some 100;
  recorded = some 500;
})

abbrev first_clip : Row
unfolding clip_at
first_clip = clip_at 1 (codes "2026_0628_133416_0001F.MP4")

abbrev second_clip : Row
unfolding clip_at
second_clip = clip_at 2 (codes "2026_0628_133516_0002F.MP4")

-- The second clip is the newest capture, so that only the first is read.
abbrev world : World
world = record { queue = first_clip ∷ second_clip ∷ []; skeletons = [] }

abbrev pool : Pool
pool = start_pass 5000 (λ _. true) world

-- The camera has no fix for the first clip.
abbrev read_pool : Pool
read_pool = end_work 5001 (target_of first_clip) (points 0) true (begin_work false pool)

read-run : Runs (AnswersAt 5005) 1 pool read_pool
unfolding start_pass sweep_orphans select_targets targets_in is_target insert_by_age gps_lens_sql
    is_active is_newest newest_capture capture_key_sql text_eq begin_work first_clip second_clip
    from_end upper gps_camera_letter text_leb event_from_filename suffix_letters parse is_digit
    is_alpha known_letters event_of_letters clip_at new_row
read-run =
    begins false (omega arith)
      (ends 5001 (target_of first_clip) (points 0) true (Memᴰ.head refl) (tt, omega arith) stays)

pass-targets_example : is_target 5005 read_pool.world.queue (settle_row 5001 0 first_clip) ≡ false
unfolding start_pass sweep_orphans select_targets targets_in is_target insert_by_age gps_lens_sql
    is_active is_newest newest_capture capture_key_sql text_eq begin_work first_clip second_clip
    from_end upper gps_camera_letter text_leb event_from_filename suffix_letters parse is_digit
    is_alpha known_letters event_of_letters clip_at new_row end_work triage_one update
pass-targets_example =
    pass-targets 5005 1 pool read_pool read-run (refl, refl, refl) refl refl
      (settle_row 5001 0 first_clip) (Memᴰ.head refl) refl

-- The camera is away while the first clip is read.
pool-run :
    Runs Fails 1 pool
      (end_work 5001 (target_of first_clip) (raises url_error) true (begin_work false pool))
unfolding start_pass sweep_orphans select_targets targets_in is_target insert_by_age gps_lens_sql
    is_active is_newest newest_capture capture_key_sql text_eq begin_work first_clip second_clip
    from_end upper gps_camera_letter text_leb event_from_filename suffix_letters parse is_digit
    is_alpha known_letters event_of_letters clip_at new_row
pool-run =
    begins false (omega arith)
      (ends 5001 (target_of first_clip) (raises url_error) true (Memᴰ.head refl) tt stays)

start_pass-reads_example : 1 ≤ abort_after_failures + (max_concurrency - 1)
start_pass-reads_example = start_pass-reads 5000 (λ _. true) world 1 _ pool-run
