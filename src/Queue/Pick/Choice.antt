-- ===== src/Queue/Pick/Choice.antt =====
-- What `next_pending` picks.
use viofosync.Prelude.{
  ◌≡◌, ◌≤◌, ◌&&◌, ◌||◌, ◌⊎◌, inl, inr, Bool, true, false, Option, none, some, arith, select,
  Bool-cases, refl, leb, leb→le, ltb, any, any_of_mem, mem_of_any, is_some, is_none,
}
use viofosync.Prelude.Int.{ltb_ℤ, eqb_ℤ}
use mathlib.Core.List.{Memᴰ}
use viofosync.FileName.{event_prefix_is, gps_sibling_sql}
use viofosync.Queue.Table.{IsFirst, first_by-IsFirst, mem-select, mem_of_mem-select}
use viofosync.Queue.Row.{
  pending, Row, Table, Scope, everything, no_parking, ro_only, nothing, before, is_state, ro_sql,
  scope_sql, is_newest, is_active, awaits_triage, triage_max_attempts,
}
use viofosync.Queue.Pick.{is_eligible, next_pending}

pub before_asym : (a b : Row) → before a b ≡ true → before b a ≡ false
unfolding before
before_asym a b h = ground arith

pub before_not_trans : (a b c : Row) → before a b ≡ false → before b c ≡ false → before a c ≡ false
unfolding before
before_not_trans a b c h k = ground arith

-- The pick among the rows of a table that pass a test.
abbrev pub IsPick : (Row → Bool) → Table → Option Row → Type 0
IsPick eligible t none = (r : Row) → Memᴰ r t → eligible r ≡ false
IsPick eligible t (some s) =
    Memᴰ s t × (eligible s ≡ true) × ((r : Row) → Memᴰ r t → eligible r ≡ true → before r s ≡ false)

IsPick-first :
    (eligible : Row → Bool) (t : Table) (o : Option Row)
    → IsFirst before before_asym before_not_trans (select eligible t) o
    → IsPick eligible t o
IsPick-first eligible t none h = λ r m. elim (Bool-cases (eligible r)) [
  | inl e ↦ absurd (h r (mem-select eligible t m e))
  | inr e ↦ e
]
IsPick-first eligible t (some s) (m, h) =
    let (mt, e) = mem_of_mem-select eligible t m in
    (mt, e, λ r mr er. h r (mem-select eligible t mr er))

pub next_pending-IsPick :
    (scope : Scope) (triage_gate active_guard : Bool) (t : Table)
    → IsPick
        (is_eligible scope triage_gate active_guard t)
        t
        (next_pending scope triage_gate active_guard t)
unfolding next_pending
next_pending-IsPick scope triage_gate active_guard t =
    IsPick-first (is_eligible scope triage_gate active_guard t) t _ (
      first_by-IsFirst before before_asym before_not_trans
        (select (is_eligible scope triage_gate active_guard t) t))

-- A scope has the row: a parking clip is one whose letter says so, outside of RO.
abbrev pub InScope : Scope → Row → Type 0
InScope everything r = Unit
InScope nothing r = ⊥
InScope ro_only r = ro_sql r.source_dir ≡ true
InScope no_parking r = (ro_sql r.source_dir ≡ true) ⊎ (event_prefix_is b'P' r.filename ≡ false)

-- A row that may be downloaded now.
pub record MayStart (scope : Scope) (triage_gate active_guard : Bool) (t : Table) (r : Row)
    : Type 0 where
  pub waits : r.state ≡ pending
  pub wanted : (is_some r.requested_at ≡ true) ⊎ InScope scope r
  pub settled :
      (f : Row)
      → triage_gate ≡ true
      → Memᴰ f t
      → gps_sibling_sql f.filename r.filename ≡ true
      → f.state ≡ pending
      → f.triaged_at ≡ none
      → 5 ≤ f.triage_attempts
  pub whole : active_guard ≡ true → r.remote_complete ≡ none → is_newest t r ≡ false

InScope-of_sql : (scope : Scope) (r : Row) → scope_sql scope r ≡ true → InScope scope r
unfolding scope_sql
InScope-of_sql everything r e = tt
InScope-of_sql nothing r e = cc
InScope-of_sql ro_only r e = e
InScope-of_sql no_parking r e = elim (Bool-cases (ro_sql r.source_dir)) [
  | inl ro ↦ inl ro
  | inr other ↦ inr (ground arith)
]

sql-of_InScope : (scope : Scope) (r : Row) → InScope scope r → scope_sql scope r ≡ true
unfolding scope_sql
sql-of_InScope everything r h = refl
sql-of_InScope nothing r h = absurd h
sql-of_InScope ro_only r h = h
sql-of_InScope no_parking r (inl e) = rw e refl
sql-of_InScope no_parking r (inr e) = ground arith

-- The test of `awaits_triage`, for one sibling.
abbrev holds_up : Row → Row → Bool
holds_up r f =
    gps_sibling_sql f.filename r.filename
    && is_state pending f
    && is_none f.triaged_at
    && ltb f.triage_attempts triage_max_attempts

is_eligible-MayStart :
    (scope : Scope) (triage_gate active_guard : Bool) (t : Table) (r : Row)
    → is_eligible scope triage_gate active_guard t r ≡ true
    → MayStart scope triage_gate active_guard t r
unfolding is_eligible awaits_triage is_active
is_eligible-MayStart scope triage_gate active_guard t r e = record {
  waits = ground arith;
  wanted = elim (Bool-cases (is_some r.requested_at)) [
    | inl asked ↦ inl asked
    | inr left ↦ inr (InScope-of_sql scope r (ground arith))
  ];
  settled = λ f gate m sibling waits fresh. elim (Bool-cases (leb 5 f.triage_attempts)) [
    | inl tried ↦ leb→le 5 f.triage_attempts tried
    | inr few ↦
        let held : any (holds_up r) t ≡ true = any_of_mem (holds_up r) t m (ground arith) in
        absurd (let clear : any (holds_up r) t ≡ false = ground arith in cc)
  ];
  whole = λ guard none_yet. ground arith;
}

MayStart-is_eligible :
    (scope : Scope) (triage_gate active_guard : Bool) (t : Table) (r : Row)
    → MayStart scope triage_gate active_guard t r
    → is_eligible scope triage_gate active_guard t r ≡ true
unfolding is_eligible awaits_triage is_active
MayStart-is_eligible scope triage_gate active_guard t r h =
    let waits : is_state pending r ≡ true = rw h.waits refl in
    let wanted : (is_some r.requested_at || scope_sql scope r) ≡ true = elim h.wanted [
      | inl asked ↦ rw asked refl
      | inr has ↦ let sql = sql-of_InScope scope r has in ground arith
    ] in
    let settled : (triage_gate && any (holds_up r) t) ≡ false =
      elim (Bool-cases (triage_gate && any (holds_up r) t)) [
        | inl held ↦
            let (f, m, e) = mem_of_any (holds_up r) t (ground arith) in
            let tried = h.settled f (ground arith) m (ground arith) (ground arith) (ground arith) in
            absurd (ground arith)
        | inr clear ↦ clear
      ] in
    let whole : (active_guard && (is_newest t r && is_none r.remote_complete)) ≡ false =
      elim (Bool-cases (active_guard && (is_newest t r && is_none r.remote_complete))) [
        | inl held ↦ absurd (let n = h.whole (ground arith) (ground arith) in ground arith)
        | inr clear ↦ clear
      ] in
    ground arith

-- The pick, by what it must be.
abbrev pub IsNext : Scope → Bool → Bool → Table → Option Row → Type 0
IsNext scope triage_gate active_guard t none =
    (r : Row) → Memᴰ r t → MayStart scope triage_gate active_guard t r → ⊥
IsNext scope triage_gate active_guard t (some s) =
    Memᴰ s t
    × MayStart scope triage_gate active_guard t s
    × ((r : Row)
        → Memᴰ r t
        → MayStart scope triage_gate active_guard t r
        → (ltb_ℤ s.priority r.priority ≡ false)
          × (eqb_ℤ r.priority s.priority ≡ true → s.enqueued_at ≤ r.enqueued_at))

IsPick-IsNext :
    (scope : Scope) (triage_gate active_guard : Bool) (t : Table) (o : Option Row)
    → IsPick (is_eligible scope triage_gate active_guard t) t o
    → IsNext scope triage_gate active_guard t o
unfolding before
IsPick-IsNext scope triage_gate active_guard t none h = λ r m k.
    absurd
      (let e = h r m in let e' = MayStart-is_eligible scope triage_gate active_guard t r k in cc)
IsPick-IsNext scope triage_gate active_guard t (some s) (m, e, h) = (
  m,
  is_eligible-MayStart scope triage_gate active_guard t s e,
  λ r mr k.
      let b = h r mr (MayStart-is_eligible scope triage_gate active_guard t r k) in
      (ground arith, λ same. ground arith),
)

-- `next_pending` returns a row of the table that may start: it is pending; it was asked for, or is
-- in the connection's scope; under the triage gate no pending GPS-bearing sibling of it that was
-- never triaged has attempts left; and under the active guard it is not both of the newest capture
-- and of unknown completeness. No row that may start has a higher priority, and none of the same
-- priority was enqueued before it. It returns none only when no row may start.
pub next_pending-IsNext :
    (scope : Scope) (triage_gate active_guard : Bool) (t : Table)
    → IsNext scope triage_gate active_guard t (next_pending scope triage_gate active_guard t)
next_pending-IsNext scope triage_gate active_guard t =
    IsPick-IsNext scope triage_gate active_guard t (next_pending scope triage_gate active_guard t)
      (next_pending-IsPick scope triage_gate active_guard t)
