-- ===== src/Tests/Archive.antt =====
-- The theorems on retention and on the derive queue at a small archive.
use mathlib.Core.List.{Memᴰ}
use viofosync.Prelude.{
  ℕ, ◌-◌, ◌≡◌, refl, Bool, true, false, ◌||◌, [], ◌∷◌, Option, none, some, arith, count, any,
}
use viofosync.Prelude.Text.{codes, text_eq}
use viofosync.DeriveQueue.{
  Job, Jobs, pending, done, is_pending, is_done, is_running, drain, enqueue_missing, result,
}
use viofosync.DeriveQueue.Rows.{UniqueClips}
use viofosync.DeriveQueue.Drain.{work, drain_rests}
use viofosync.DeriveQueue.Scan.{live, enqueue_missing_covers}
use viofosync.Queue.Keys.{sum}
use viofosync.Retention.{Clip, Host, Store, removed}
use viofosync.Retention.Space.{Rules}
use viofosync.Retention.Pressure.{Freed, is_candidate, disk_pressure_pass}
use viofosync.Retention.Sweep.{Swept, sweep}
use viofosync.Retention.Room.{Room, is_evictable, room_loop, start_room, make_room_for}
use viofosync.Retention.Evictions.{UniqueIds, Evictions}
use viofosync.Retention.Ends.{disk_pressure_pass_evicts}
use viofosync.Retention.Making.{Settled}
use viofosync.Retention.Safety.{sweep_spares}
use viofosync.Retention.Import.{make_room_for_settles, make_room_for_spares}

abbrev stale_job : Job
stale_job = record {
  clip_id = 1;
  priority = 1;
  state = pending;
  attempts = 2;
  last_error = none;
  enqueued_at = 10;
  updated_at = 10;
}

abbrev done_job : Job
done_job = record stale_job { clip_id = 2; state = done }

abbrev jobs : Jobs
jobs = stale_job ∷ done_job ∷ []

jobs-UniqueClips : UniqueClips jobs
jobs-UniqueClips = ((refl, tt), (tt, tt))

drain_rests_example :
    count is_pending (drain 1 3 (λ n. 30) (λ n i. some (result false true)) jobs) ≡ 0
unfolding work sum
drain_rests_example =
    drain_rests 1 3 (λ n. 30) (λ n i. some (result false true)) jobs jobs-UniqueClips (omega arith)

enqueue_missing_covers_example :
    ((i : ℕ)
      → Memᴰ i (1 ∷ 2 ∷ 3 ∷ [])
      → any (live i) (enqueue_missing (1 ∷ 2 ∷ 3 ∷ []) 1 20 jobs).0 ≡ true)
    × ((j : Job)
        → Memᴰ j jobs
        → (is_done j || is_running j) ≡ true
        → Memᴰ j (enqueue_missing (1 ∷ 2 ∷ 3 ∷ []) 1 20 jobs).0)
enqueue_missing_covers_example = enqueue_missing_covers (1 ∷ 2 ∷ 3 ∷ []) 1 20 jobs

-- A disk of 100 bytes, of which the world is the number of those in use.
abbrev pub disk : Host ℕ
disk = record {
  getsize = λ w p. some 10;
  remove = λ w p. (removed, w - 10);
  rmdir = λ w d. w;
  dirname = λ p. codes "day";
  thumb_path = λ i. codes "thumb";
  sprite_path = λ i. codes "sprite";
  meta_path = λ i. codes "meta";
  disk_usage = λ w. some (w, 100);
  scan_dir_bytes = λ w. w;
  monotonic = λ w. 0;
}

abbrev pub old_clip : Clip
old_clip = record {
  id = 1;
  path = codes "day/old.MP4";
  basename = codes "old.MP4";
  timestamp = 100;
  event_type = some (codes "normal");
  locked = false;
}

abbrev ro_clip : Clip
ro_clip = record old_clip {
  id = 2;
  path = codes "day/ro.MP4";
  timestamp = 50;
  event_type = some (codes "ro");
}

abbrev pub archive : Store ℕ
archive = record { world = 90; clips = old_clip ∷ ro_clip ∷ []; jobs = jobs; cache = none }

abbrev pub rules : Rules
rules = record { disk_pct = 80; quota_gb = 0; protect_ro = true; protect_ids = [] }

pub archive-UniqueIds : UniqueIds archive.clips
archive-UniqueIds = ((refl, tt), (tt, tt))

disk_pressure_pass_evicts_example :
    (r : Store ℕ × Option Freed) × (disk_pressure_pass disk rules archive ≡ some r)
    × Evictions (is_candidate rules []) archive.clips archive.clips r.0.clips
disk_pressure_pass_evicts_example = disk_pressure_pass_evicts disk rules archive

sweep_spares_example :
    (r : Store ℕ × Option Swept) × (sweep disk rules 9000000 30 archive ≡ some r)
    × Memᴰ ro_clip r.0.clips
unfolding text_eq
sweep_spares_example =
    sweep_spares disk rules 9000000 30 archive ro_clip archive-UniqueIds
      (Memᴰ.tail (Memᴰ.head refl)) refl

make_room_for_settles_example :
    (x : Store ℕ × Room × Bool) × (room_loop disk rules 5 90 3
        (archive, start_room disk rules 5 90 archive)
      ≡ some x)
    × Evictions (is_evictable rules 90 []) archive.clips archive.clips x.0.clips
    × Settled disk rules 5 90 archive.clips x
make_room_for_settles_example = make_room_for_settles disk rules 5 90 archive

make_room_for_spares_example :
    (r : Store ℕ × Bool) × (make_room_for disk rules 5 90 archive ≡ some r)
    × Memᴰ old_clip r.0.clips
unfolding text_eq
make_room_for_spares_example =
    make_room_for_spares disk rules 5 90 archive old_clip archive-UniqueIds (Memᴰ.head refl) refl
