-- ===== src/Geofence.antt =====
-- web/services/geofence.py: which pending clips are skipped because they were recorded at home.
-- The day's stops and journeys, which gps.py finds in GPX files, are arguments; times are whole
-- seconds.
pub mod Silence
pub mod Tails
pub mod Skips
use viofosync.Prelude.{
  ℕ, zero, suc, ◌+◌, ◌-◌, min, max, Bool, true, false, not, ◌&&◌, ◌||◌, List, [], ◌∷◌, ◌++◌, map,
  Option, none, some, leb, ltb, is_none, if◌then◌else◌, select, any,
}
use viofosync.Prelude.Text.{Text, text_eq}
use viofosync.FileName.{Event, parking, event_prefix_is, day_key_sql, gps_lens_sql}
use viofosync.Queue.Row.{pending, downloading, failed, Row, Table, is_state, ro_sql}
use viofosync.Queue.Ops.{geofence_skip}

abbrev pub leading_edge_pad_s : ℕ
leading_edge_pad_s = 60

abbrev pub tail_cap_s : ℕ
tail_cap_s = 900

abbrev pub tail_gap_s : ℕ
tail_gap_s = 300

abbrev pub tail_slack_s : ℕ
tail_slack_s = 120

abbrev pub arrival_match_s : ℕ
arrival_match_s = 120

abbrev pub nominal_clip_s : ℕ
nominal_clip_s = 60

abbrev pub max_journey_buffer_s : ℕ
max_journey_buffer_s = 120

-- A row of the day's listing, with its time.
abbrev pub Listed : Type 0
Listed = ℕ × Row

unfoldable pub by_time : Listed → List Listed → List Listed
by_time a [] = a ∷ []
by_time (t, r) ((u, s) ∷ rows) =
    if ltb u t then (u, s) ∷ by_time (t, r) rows else (t, r) ∷ (u, s) ∷ rows

-- `recorded_at IS NOT NULL ORDER BY recorded_at`
abbrev pub with_time : Option ℕ → Row → List Listed → List Listed
with_time none r rows = rows
with_time (some t) r rows = by_time (t, r) rows

unfoldable pub on_day : Text → Row → Bool
on_day date r = text_eq (day_key_sql r.filename) date

unfoldable pub day_listing : Text → Table → List Listed
unfolding by_time on_day
day_listing date [] = []
day_listing date (r ∷ t) =
    let rest = day_listing date t in if on_day date r then with_time r.recorded_at r rest else rest

abbrev pub is_parking : Row → Bool
is_parking r = elim r.event_type [ none ↦ false | some e ↦ elim e [ parking ↦ true | _ ↦ false ] ]

-- `_UNTRIAGED_GUARD_STATES`, on the GPS-bearing lens.
unfoldable pub is_untriaged : Row → Bool
is_untriaged r =
    (is_state pending r || is_state failed r || is_state downloading r)
    && is_none r.triaged_at
    && gps_lens_sql r.filename

abbrev pub time_of : Listed → ℕ
time_of (t, r) = t

unfoldable pub times : (Row → Bool) → List Listed → List ℕ
times p rows = map time_of (select (λ (t, r). p r) rows)

-- The end of the run of files without a silence, and whether a later file proves the silence.
unfoldable pub run_end : ℕ → List ℕ → ℕ × Bool
run_end last [] = (last, false)
run_end last (t ∷ ts) = if ltb (last + tail_gap_s) t then (last, true) else run_end t ts

abbrev pub Span : Type 0
Span = ℕ × ℕ

pub data Verdict : Type 0 where
  ordinary : Verdict
  undecided tail : Span → Verdict

-- `abs(ss - je) <= ARRIVAL_MATCH_S`
abbrev pub arrives : List ℕ → ℕ → Bool
arrives journey_ends ss =
    any (λ je. leb ss (je + arrival_match_s) && leb je (ss + arrival_match_s)) journey_ends

module _ (untriaged_ts journey_ends : List ℕ) (now ss : ℕ) where
  unfoldable pub judge : ℕ × Bool → Verdict
  judge (last, stopped) =
      if ltb (ss + tail_cap_s) last
      then ordinary
      else if any (λ t. leb ss (t + tail_gap_s) && ltb t ss) untriaged_ts
      then undecided (ss, last + nominal_clip_s)
      else if not (arrives journey_ends ss)
      then ordinary
      else if not stopped && ltb now (last + tail_gap_s + tail_slack_s)
      then undecided (ss, last + nominal_clip_s)
      else tail (ss, last + nominal_clip_s)

  unfoldable pub judge_run : List ℕ → Verdict
  unfolding judge run_end
  judge_run [] = ordinary
  judge_run (t ∷ run) = judge (run_end t run)

-- The loop's body for one stop that starts at `ss`.
unfoldable pub classify : List Listed → List ℕ → ℕ → ℕ → Verdict
unfolding judge_run times is_untriaged
classify rows journey_ends now ss =
    if any (λ t. leb ss t && leb t (ss + tail_cap_s + tail_gap_s)) (times is_parking rows)
    then ordinary
    else judge_run (times is_untriaged rows) journey_ends now ss
        (select (λ t. leb ss (t + leading_edge_pad_s)) (times (λ r. true) rows))

abbrev pub note : Verdict → List Span × List Span → List Span × List Span
note ordinary spans = spans
note (undecided s) (tails, live) = (tails, s ∷ live)
note (tail s) (tails, live) = (s ∷ tails, live)

-- The tails and the undecided spans, for the stops' start times.
unfoldable pub shutdown_tails : List Listed → List ℕ → ℕ → List Span → List Span × List Span
unfolding classify
shutdown_tails rows journey_ends now [] = ([], [])
shutdown_tails rows journey_ends now ((ss, se) ∷ stops) =
    note (classify rows journey_ends now ss) (shutdown_tails rows journey_ends now stops)

-- gps.py. A start before the epoch is 0 here, which no time of a clip precedes either.
unfoldable pub expand_edges : Span → List Span → Span → Span
expand_edges (start, end) [] window = window
expand_edges (start, end) ((ps, pe) ∷ spans) (lo, hi) =
    expand_edges (start, end) spans
      (
        if ltb ps start then max lo (min pe start) else lo,
        if ltb end pe then min hi (max ps end) else hi,
      )

unfoldable pub expand_journey_window : Span → List Span → Span
unfolding expand_edges
expand_journey_window (start, end) spans =
    expand_edges (start, end) spans (start - max_journey_buffer_s, end + max_journey_buffer_s)

-- `geofence_candidates`
unfoldable pub is_candidate : Text → Row → Bool
unfolding on_day
is_candidate date r =
    on_day date r
    && is_state pending r
    && is_none r.geofence_released_at
    && not (ro_sql r.source_dir)
    && not (event_prefix_is b'E' r.filename)

abbrev pub within : List Span → ℕ → Bool
within spans t = any (λ (lo, hi). leb lo t && leb t hi) spans

-- `lo - LEADING_EDGE_PAD_S <= t <= hi`
abbrev pub near : List Span → ℕ → Bool
near spans t = any (λ (lo, hi). leb lo (t + leading_edge_pad_s) && leb t hi) spans

-- A day's evidence: the stops at home, the journeys, and the spans of parking clips.
pub record Day : Type 0 where
  pub date : Text
  pub home : List Span
  pub journeys : List Span
  pub parking_spans : List Span

abbrev pub end_of : Span → ℕ
end_of (start, end) = end

unfoldable pub drives : Day → List Span
unfolding expand_journey_window
drives day = map (λ j. expand_journey_window j day.parking_spans) day.journeys

unfoldable pub protected_spans : Day → ℕ → Table → List Span
unfolding shutdown_tails day_listing
protected_spans day now t =
    let (tails, live) =
      shutdown_tails (day_listing day.date t) (map end_of day.journeys) now day.home in
    tails ++ live

unfoldable pub is_parked : Day → ℕ → Table → ℕ → Bool
unfolding drives protected_spans
is_parked day now t at =
    near day.home at && not (within (drives day) at) && not (near (protected_spans day now t) at)

abbrev pub parked_at : Day → ℕ → Table → Option ℕ → Bool
parked_at day now t none = false
parked_at day now t (some at) = is_parked day now t at

unfoldable pub to_skip : Day → ℕ → Table → List Text
unfolding is_candidate is_parked
to_skip day now t =
    map (λ r. r.filename)
      (select (λ r. is_candidate day.date r && parked_at day now t r.recorded_at) t)

-- Without a home stop no clip is near one, so the early returns need no branch.
unfoldable pub evaluate_day : Day → ℕ → Table → Table × List Text
unfolding to_skip geofence_skip
evaluate_day day now t = let names = to_skip day now t in ((geofence_skip names t).0, names)
