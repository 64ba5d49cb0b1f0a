-- ===== src/Geofence/Skips.antt =====
-- What `evaluate_day` of geofence.py does to the queue.
use mathlib.Core.List.{Memᴰ}
use mathlib.Core.Path.{subst}
use viofosync.Prelude.{
  ℕ, ◌+◌, ◌≤◌, ◌≡◌, refl, Bool, true, false, ◌&&◌, List, [], ◌∷◌, ◌++◌, map, Option, none, some,
  arith, leb, is_none, select, any, any_of_mem, mem_of_any, Bool-cases, inl, inr, ◌⊎◌,
}
use viofosync.Prelude.Text.{Text, text_eq}
use viofosync.FileName.{event_prefix_is, day_key_sql}
use viofosync.Queue.Table.{Rows, update-Rows}
use viofosync.Queue.Row.{pending, Row, Table, is_state, named, ro_sql}
use viofosync.Queue.Ops.{skip_by_geofence, geofence_skip}
use viofosync.Geofence.{
  Span, Verdict, ordinary, undecided, tail, Listed, Day, leading_edge_pad_s, is_candidate,
  parked_at, to_skip, evaluate_day, expand_journey_window, classify, day_listing, end_of, note,
  near, within, shutdown_tails, on_day, is_parked, drives, protected_spans,
}

mem-++ : (s : Span) (xs ys : List Span) → Memᴰ s (xs ++ s ∷ ys)
mem-++ s [] ys = Memᴰ.head refl
mem-++ s (x ∷ xs) ys = Memᴰ.tail (mem-++ s xs ys)

-- A span covers the time.
abbrev pub Covers : Span → ℕ → Type 0
Covers s at = (s.0 ≤ at) × (at ≤ s.1)

-- The time is in the span, or up to a minute before its start.
abbrev pub Near : Span → ℕ → Type 0
Near s at = (s.0 ≤ at + 60) × (at ≤ s.1)

-- A clip of the day that was recorded at home, in no drive and near no tail.
pub record AtHome (day : Day) (now : ℕ) (t : Table) (x : Row) : Type 0 where
  pub of_day : text_eq (day_key_sql x.filename) day.date ≡ true
  pub not_ro : ro_sql x.source_dir ≡ false
  pub not_event : event_prefix_is b'E' x.filename ≡ false
  pub at : ℕ
  pub recorded : x.recorded_at ≡ some at
  pub home : (h : Span) × Memᴰ h day.home × Near h at
  pub no_drive :
      (j : Span) → Memᴰ j day.journeys → Covers (expand_journey_window j day.parking_spans) at → ⊥
  pub no_tail :
      (h s : Span)
      → Memᴰ h day.home
      → let verdict = classify (day_listing day.date t) (map end_of day.journeys) now h.0 in
        (verdict ≡ tail s) ⊎ (verdict ≡ undecided s) → Near s at → ⊥

-- A row of the queue with its name is such a clip.
abbrev pub NamesAtHome : Day → ℕ → Table → Row → Type 0
NamesAtHome day now t a =
    (x : Row) × Memᴰ x t × (text_eq a.filename x.filename ≡ true) × AtHome day now t x

abbrev pub Skip : Day → ℕ → Table → Row → Row → Type 0
Skip day now t a b =
    (a ≡ b)
    ⊎ ((b ≡ skip_by_geofence a)
        × (a.state ≡ pending)
        × (a.geofence_released_at ≡ none)
        × NamesAtHome day now t a)

any-names :
    (p : Row → Bool) (f : Text) (t : Table)
    → any (text_eq f) (map (λ r. r.filename) (select p t)) ≡ true
    → any (λ x. text_eq f x.filename && p x) t ≡ true
any-names p f [] h = cc
any-names p f (x ∷ t) h = elim (Bool-cases (p x)) [
  | inl e ↦ ground (arith, any-names p f t)
  | inr e ↦ ground (arith, any-names p f t (rw e at h))
]

Near-near :
    (s : Span) (spans : List Span) (at : ℕ) → Memᴰ s spans → Near s at → near spans at ≡ true
Near-near s spans at m (lo, hi) =
    any_of_mem (λ (lo, hi). leb lo (at + leading_edge_pad_s) && leb at hi) spans m (ground arith)

near-Near :
    (spans : List Span) (at : ℕ) → near spans at ≡ true → (s : Span) × Memᴰ s spans × Near s at
near-Near spans at e =
    let (s, m, h) =
      mem_of_any (λ (lo, hi). leb lo (at + leading_edge_pad_s) && leb at hi) spans e in
    (s, m, (ground arith, ground arith))

drive-within :
    (day : Day) (js : List Span) (j : Span) (at : ℕ)
    → Memᴰ j js
    → Covers (expand_journey_window j day.parking_spans) at
    → within (map (λ j. expand_journey_window j day.parking_spans) js) at ≡ true
drive-within day [] j at m h = elim m [ ]
drive-within day (k ∷ js) j at (Memᴰ.head e) (lo, hi) =
    let lo' : (expand_journey_window k day.parking_spans).0 ≤ at = rw (← e) lo in
    let hi' : at ≤ (expand_journey_window k day.parking_spans).1 = rw (← e) hi in ground arith
drive-within day (k ∷ js) j at (Memᴰ.tail m) h = ground (arith, drive-within day js j at m h)

-- A span that a stop is judged to have is among the protected ones.
noted-near :
    (v : Verdict) (s : Span) (tails live : List Span) (at : ℕ)
    → (v ≡ tail s) ⊎ (v ≡ undecided s)
    → Near s at
    → near ((note v (tails, live)).0 ++ (note v (tails, live)).1) at ≡ true
noted-near v s tails live at (inl e) h = rw e (Near-near s _ at (Memᴰ.head refl) h)
noted-near v s tails live at (inr e) h = rw e (Near-near s _ at (mem-++ s tails live) h)

insert-near :
    (s : Span) (tails live : List Span) (at : ℕ)
    → near (tails ++ live) at ≡ true
    → near (tails ++ s ∷ live) at ≡ true
insert-near s [] live at h = ground arith
insert-near s (x ∷ tails) live at h = ground (arith, insert-near s tails live at)

note-near :
    (v : Verdict) (tails live : List Span) (at : ℕ)
    → near (tails ++ live) at ≡ true
    → near ((note v (tails, live)).0 ++ (note v (tails, live)).1) at ≡ true
note-near ordinary tails live at h = h
note-near (undecided s) tails live at h = insert-near s tails live at h
note-near (tail s) tails live at h = ground arith

tail-near :
    (rows : List Listed) (ends : List ℕ) (now : ℕ) (stops : List Span) (h s : Span) (at : ℕ)
    → Memᴰ h stops
    → (classify rows ends now h.0 ≡ tail s) ⊎ (classify rows ends now h.0 ≡ undecided s)
    → Near s at
    → near ((shutdown_tails rows ends now stops).0 ++ (shutdown_tails rows ends now stops).1) at
      ≡ true
unfolding shutdown_tails
tail-near rows ends now [] h s at m v k = elim m [ ]
tail-near rows ends now ((ss, se) ∷ stops) h s at (Memᴰ.head e) v k =
    noted-near (classify rows ends now ss) s _ _ at
      (subst
        (λ (x : Span).
          (classify rows ends now x.0 ≡ tail s) ⊎ (classify rows ends now x.0 ≡ undecided s))
        e v)
      k
tail-near rows ends now ((ss, se) ∷ stops) h s at (Memᴰ.tail m) v k =
    note-near (classify rows ends now ss) _ _ at (tail-near rows ends now stops h s at m v k)

same-Rows : (day : Day) (now : ℕ) (whole t : Table) → Rows (Skip day now whole) t t
same-Rows day now whole [] = Rows.none_left
same-Rows day now whole (r ∷ t) = Rows.row (inl refl) (same-Rows day now whole t)

Skip-Rows :
    (day : Day) (now : ℕ) (t : Table) (names : List Text)
    → ((a : Row) → named names a ≡ true → NamesAtHome day now t a)
    → Rows (Skip day now t) t (geofence_skip names t).0
unfolding geofence_skip
Skip-Rows day now t [] h = same-Rows day now t t
Skip-Rows day now t (n ∷ names) h =
    update-Rows (Skip day now t)
      (λ r. named (n ∷ names) r && is_state pending r && is_none r.geofence_released_at)
      skip_by_geofence (λ r. inl refl)
      (λ r e. inr (refl, ground arith, released r (ground arith), h r (ground arith))) t
  where
    released : (r : Row) → is_none r.geofence_released_at ≡ true → r.geofence_released_at ≡ none
    released r e = ground arith

at_home :
    (day : Day) (now : ℕ) (t : Table) (x : Row) (at : Option ℕ)
    → x.recorded_at ≡ at
    → is_candidate day.date x ≡ true
    → parked_at day now t at ≡ true
    → AtHome day now t x
unfolding is_candidate on_day is_parked drives protected_spans
at_home day now t x none e c p = cc
at_home day now t x (some at) e c p = record {
  of_day = ground arith;
  not_ro = ground arith;
  not_event = ground arith;
  at = at;
  recorded = e;
  home = near-Near day.home at (ground arith);
  no_drive = λ j m h. let covered = drive-within day day.journeys j at m h in absurd (ground arith);
  no_tail = λ h s m v k.
      let covered =
        tail-near (day_listing day.date t) (map end_of day.journeys) now day.home h s at m v k in
      absurd (ground arith);
}

-- A day's evaluation changes rows only by skipping them as geofenced, and only rows that are
-- pending, that no one ever released, and that have the name of a clip of that day which is neither
-- under RO nor an event clip and was recorded at home: at a time in a stop at home, or up to a
-- minute before it, that is in no drive's widened window and not in, or up to a minute before, the
-- span of any stop that is judged a tail or undecided. Every other row is as it was.
pub evaluate_day-Skip :
    (day : Day) (now : ℕ) (t : Table) → Rows (Skip day now t) t (evaluate_day day now t).0
unfolding evaluate_day to_skip
evaluate_day-Skip day now t = Skip-Rows day now t (to_skip day now t) (λ a e. named_at_home a (
    any-names (λ r. is_candidate day.date r && parked_at day now t r.recorded_at) a.filename t
      (unfold named in e)))
  where
    named_at_home :
        (a : Row)
        → any
            (λ x.
              text_eq a.filename x.filename
              && (is_candidate day.date x && parked_at day now t x.recorded_at))
            t
          ≡ true
        → NamesAtHome day now t a
    named_at_home a e =
        let (x, m, h) =
          mem_of_any
            (λ x.
              text_eq a.filename x.filename
              && (is_candidate day.date x && parked_at day now t x.recorded_at))
            t e in
        (x, m, ground arith, at_home day now t x x.recorded_at refl (ground arith) (ground arith))
