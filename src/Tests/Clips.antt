-- ===== src/Tests/Clips.antt =====
-- The theorems on the queue at a small queue.
use viofosync.Prelude.{All, ℕ, ◌≡◌, refl, true, false, List, [], ◌∷◌, none, some}
use viofosync.Prelude.Text.{Text, codes, text_eq}
use viofosync.Queue.Table.{update}
use viofosync.Queue.Row.{pending, failed, Row, Table, no_parking}
use viofosync.Queue.Reconcile.{
  Recording, find, new_row, remote_by_name, reconcile, contains, index_from, put, vanish_all,
  vanish_one, listed, visit_all, visit, visit_wanted, is_stale, has_name, or_else,
}
use viofosync.Queue.Reconcile.Spec.{reconciled}
use viofosync.Queue.Reconcile.Refinement.{UniqueNames, reconcile-find}
use viofosync.Queue.Reconcile.Outcome.{names_file, reconcile-idempotent, reconcile-tracked}
use viofosync.Queue.Ops.{has_id, attempts_of}
use viofosync.Queue.Machine.Worker.{fail_times, fail_times_budget}
use viofosync.Queue.Pick.{next_pending}
use viofosync.Queue.Pick.Choice.{IsNext, next_pending-IsNext}

abbrev drive : Text
drive = codes "2026_0628_133416_0001F.MP4"

abbrev parked : Text
parked = codes "2026_0628_133516_0002PF.MP4"

abbrev vanished_clip : Text
vanished_clip = codes "2026_0627_101500_0003R.MP4"

abbrev drive_listed : Recording
drive_listed = record {
  filename = drive;
  filepath = codes "A:/DCIM/Movie";
  size = some 100;
  recorded = some 500;
}

abbrev parked_listed : Recording
parked_listed = record {
  filename = parked;
  filepath = codes "A:/DCIM/Movie/Parking";
  size = some 90;
  recorded = some 560;
}

-- One clip that the camera still lists, and one that it does not.
abbrev held_row : Row
unfolding new_row
held_row = new_row pending none 10 1 parked parked_listed

abbrev lost_row : Row
unfolding new_row
lost_row = record (new_row failed none 11 2 vanished_clip drive_listed) { attempts = 3 }

abbrev queue : Table
queue = held_row ∷ lost_row ∷ []

abbrev listing : List Recording
listing = drive_listed ∷ parked_listed ∷ []

queue-UniqueNames : UniqueNames queue
unfolding find text_eq held_row lost_row new_row
queue-UniqueNames = (refl, (refl, tt))

reconcile-find_example :
    (id : ℕ) × (find drive (reconcile 20 listing [] queue).0
      ≡ reconciled 20 id [] (remote_by_name listing) drive (find drive queue))
reconcile-find_example = reconcile-find 20 listing [] queue drive queue-UniqueNames

reconcile-idempotent_example :
    find drive (reconcile 30 listing [] (reconcile 20 listing [] queue).0).0
    ≡ find drive (reconcile 20 listing [] queue).0
reconcile-idempotent_example = reconcile-idempotent 20 30 listing [] queue drive queue-UniqueNames

reconcile-tracked_example : (names_file parked listing ≡ true) × (contains [] parked ≡ false)
unfolding reconcile find remote_by_name index_from put text_eq vanish_all held_row lost_row
    vanish_one listed update visit_all visit contains visit_wanted is_stale has_name or_else new_row
reconcile-tracked_example =
    reconcile-tracked 20 listing [] queue parked held_row queue-UniqueNames refl refl refl

next_pending-IsNext_example :
    IsNext no_parking true true queue (next_pending no_parking true true queue)
next_pending-IsNext_example = next_pending-IsNext no_parking true true queue

fail_times_budget_example :
    let t' = fail_times 2 40 2 (codes "timed out") 5 queue in
    (attempts_of 2 t' ≡ some 5) × All (λ r. has_id 2 r ≡ true → r.state ≡ failed) t'
unfolding attempts_of held_row lost_row new_row
fail_times_budget_example = fail_times_budget 1 40 2 (codes "timed out") 5 3 queue refl
