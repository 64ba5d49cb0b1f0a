-- ===== src/Export/Jobs.antt =====
-- web/services/exporter.py: the table `export_jobs`, the worker that renders one job at a time, and
-- the router's delete.
pub mod Restart
pub mod Rowwise
pub mod Protect
pub mod Steps
pub mod Single
pub mod Kept
pub mod Framed
pub mod Finish
use viofosync.Prelude.{
  ℕ, zero, suc, ◌+◌, ◌-◌, ◌/◌, Bool, true, false, not, ◌&&◌, ◌||◌, List, [], ◌∷◌, ◌++◌, map, Option,
  none, some, ltb, leb, ◌==◌, if◌then◌else◌, is_some, min, max, select, any, count, all,
}
use viofosync.Prelude.Text.{Text, codes}
use viofosync.Queue.Table.{update, first_by}
use viofosync.Export.{Segment, Indexed, first_start, last_end, timeline_protect_margin_s}

pub data ExportState : Type 0 where
  queued running paused done failed : ExportState

-- The column `clip_ids`: a dict with ids, a bare list, a dict with segments, or no JSON.
pub data Payload : Type 0 where
  with_ids : List ℕ → Payload
  bare_list : List ℕ → Payload
  with_segments : List Segment → Payload
  unreadable : Payload

pub record ExportJob : Type 0 where
  pub id : ℕ
  pub payload : Payload
  pub state : ExportState
  pub error : Option Text
  pub output_path : Option ℕ
  pub created_at : ℕ
  pub started_at : Option ℕ
  pub finished_at : Option ℕ
  pub clip_start : Option ℕ
  pub clip_end : Option ℕ

abbrev pub is_in : ExportState → ExportJob → Bool
is_in queued j = elim j.state [ queued ↦ true | _ ↦ false ]
is_in running j = elim j.state [ running ↦ true | _ ↦ false ]
is_in paused j = elim j.state [ paused ↦ true | _ ↦ false ]
is_in done j = elim j.state [ done ↦ true | _ ↦ false ]
is_in failed j = elim j.state [ failed ↦ true | _ ↦ false ]

-- `state IN ('running', 'paused')`
abbrev pub is_rendering : ExportJob → Bool
is_rendering j = is_in running j || is_in paused j

abbrev pub has_job : ℕ → ExportJob → Bool
has_job i j = j.id == i

-- The jobs, the next id, the worker's control of its job, and the files of `.exports`: the staged
-- and the finished ones, by the ids of their jobs.
pub record Exports : Type 0 where
  pub jobs : List ExportJob
  pub next_id : ℕ
  pub current : Option ℕ
  pub cancel_current : Bool
  pub is_paused : Bool
  pub partials : List ℕ
  pub finals : List ℕ

abbrev pub drop_id : ℕ → List ℕ → List ℕ
drop_id i = select (λ k. not (k == i))

-- `if job_id != self._current_job_id`
abbrev pub is_current : ℕ → Exports → Bool
is_current i s = elim s.current [ none ↦ false | some k ↦ k == i ]

abbrev pub insert_job : ExportJob → Exports → Exports
insert_job j s = record s { jobs = s.jobs ++ (j ∷ []); next_id = suc s.next_id }

abbrev pub lowest : List ℕ → Option ℕ
lowest [] = none
lowest (t ∷ ts) = elim (lowest ts) [ none ↦ some t | some m ↦ some (min t m) ]

abbrev pub highest : List ℕ → Option ℕ
highest [] = none
highest (t ∷ ts) = elim (highest ts) [ none ↦ some t | some m ↦ some (max t m) ]

-- `enqueue`, for a job type that exists, on a host with ffmpeg; none is the ValueError of no clips.
unfoldable pub enqueue_clips : ℕ → List ℕ → List Indexed → Exports → Option Exports
enqueue_clips now [] index s = none
enqueue_clips now (i ∷ ids) index s =
    let times = map (λ r. r.timestamp) (select (λ r. any (λ k. r.id == k) (i ∷ ids)) index) in
    some (
      insert_job
        (record {
          id = s.next_id;
          payload = with_ids (i ∷ ids);
          state = queued;
          error = none;
          output_path = none;
          created_at = now;
          started_at = none;
          finished_at = none;
          clip_start = lowest times;
          clip_end = highest times;
        })
        s)

-- The job that `enqueue_timeline` writes.
unfoldable pub timeline_job : ℕ → ℕ → Segment → List Segment → ExportJob
timeline_job now id seg segs = record {
  id = id;
  payload = with_segments (seg ∷ segs);
  state = queued;
  error = none;
  output_path = none;
  created_at = now;
  started_at = none;
  finished_at = none;
  clip_start = some (first_start seg segs / 1000);
  clip_end = some (last_end seg segs / 1000);
}

-- `enqueue_timeline`; none is the ValueError of no segments, or of one that does not end after it
-- starts.
unfoldable pub enqueue_timeline : ℕ → List Segment → Exports → Option Exports
unfolding timeline_job
enqueue_timeline now [] s = none
enqueue_timeline now (seg ∷ segs) s =
    if all (λ g. ltb g.start_ts g.end_ts) (seg ∷ segs)
    then some (insert_job (timeline_job now s.next_id seg segs) s)
    else none

-- `ORDER BY created_at ASC`
unfoldable pub created_before : ExportJob → ExportJob → Bool
created_before a b = ltb a.created_at b.created_at

abbrev pub begin_job : ℕ → ExportJob → ExportJob
begin_job now j = record j { state = running; started_at = some now }

abbrev pub pop_job : ℕ → Option ExportJob → Exports → Exports
pop_job now none s = s
pop_job now (some j) s = record s {
  jobs = update (has_job j.id) (begin_job now) s.jobs;
  current = some j.id;
  cancel_current = false;
  is_paused = false;
}

-- `_pop_next_sync`, which the loop calls when no job is being processed.
unfoldable pub pop_next : ℕ → Exports → Exports
unfolding first_by created_before update
pop_next now s = pop_job now (first_by created_before (select (is_in queued) s.jobs)) s

abbrev pub set_state : ℕ → ExportState → Exports → Exports
set_state i state s = record s {
  jobs = update (has_job i) (λ j. record j { state = state }) s.jobs;
}

unfoldable pub pause : ℕ → Exports → Bool × Exports
unfolding update
pause i s =
    if is_current i s
    then (true, set_state i paused (record s { is_paused = true }))
    else (false, s)

unfoldable pub resume : ℕ → Exports → Bool × Exports
unfolding update
resume i s =
    if is_current i s
    then (true, set_state i running (record s { is_paused = false }))
    else (false, s)

unfoldable pub cancel : ℕ → Exports → Bool × Exports
cancel i s =
    if is_current i s
    then (true, record s { cancel_current = true; is_paused = false })
    else (false, s)

unfoldable pub discard_partial : ℕ → Exports → Exports
discard_partial i s = record s { partials = drop_id i s.partials }

-- The row's output_path is this file.
abbrev pub names_file : ℕ → ExportJob → Bool
names_file k j = elim j.output_path [ none ↦ false | some m ↦ m == k ]

-- The router's delete, of the row and of the file that it names; false is the answer 404.
abbrev pub remove_job : ℕ → Exports → Bool × Exports
remove_job i s =
    if any (has_job i) s.jobs
    then (
      true,
      record s {
        jobs = select (λ j. not (has_job i j)) s.jobs;
        finals = select (λ k. not (any (λ j. has_job i j && names_file k j) s.jobs)) s.finals;
      },
    )
    else (false, s)

unfoldable pub delete_job : ℕ → Exports → Bool × Exports
unfolding cancel
delete_job i s = remove_job i (cancel i s).1
