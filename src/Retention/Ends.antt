-- ===== src/Retention/Ends.antt =====
-- The loops of retention.py end: each round has a clip less to consider.
use mathlib.Core.List.{Memᴰ}
use viofosync.Prelude.{
  ℕ, zero, suc, ◌+◌, ◌≤◌, ◌≡◌, refl, Bool, true, false, not, ◌&&◌, List, [], ◌∷◌, Option, none,
  some, arith, ◌==◌, if◌then◌else◌, count-le-length, length, Bool-cases, inl, inr,
}
use viofosync.Retention.{Clip, Host, Store}
use viofosync.Retention.Space.{Rules, over_threshold}
use viofosync.Retention.Pressure.{
  Progress, Stop, Freed, early, ended, raised, batch_size, is_candidate, next_batch, evict, Batch,
  check_again, next_row, sweep_rows, Loop, after_batch, on_batch, on_pressure, pressure_loop,
  pruned_store, count_protected, conclude, no_progress, disk_pressure_pass,
}
use viofosync.Retention.Evictions.{
  without, Evictions, Admitted, Admitted-oldest_first, Admitted-take, Admitted-select,
}
use viofosync.Retention.Index.{RowDone, evict-RowDone, over_threshold_clips}
use viofosync.Retention.Candidates.{left, left_row_less, left_row_fewer}
use viofosync.Retention.Guard.{LoopEvicts, loop-Evicts}

candidate_law :
    (rules : Rules) (i : ℕ) (ids : List ℕ) (c : Clip)
    → is_candidate rules (i ∷ ids) c ≡ (not (c.id == i) && is_candidate rules ids c)
unfolding is_candidate
candidate_law rules i ids c = ground arith

module _ {W : Type 0} (h : Host W) (rules : Rules) where
  abbrev remaining : Store W → Progress → ℕ
  remaining s p = left (is_candidate rules) (candidate_law rules) p.failed_ids s.clips

  checked_less :
      (n : ℕ) (s : Store W) (p : Progress) (rest : Store W → Progress → Batch h rules)
      → ((s' : Store W) (p' : Progress) → remaining (rest s' p').0 (rest s' p').1 ≤ remaining s' p')
      → (o : Option Bool × Store W) → o.1.clips ≡ s.clips
      → remaining (check_again h rules rest p o).0 (check_again h rules rest p o).1 ≤ remaining s p
  checked_less n s p rest ih (none, s') e = rw e (omega arith)
  checked_less n s p rest ih (some true, s') e = rw (← e) (ih s' p)
  checked_less n s p rest ih (some false, s') e = rw e (omega arith)

  -- The rows after one row of a batch do not add candidates.
  row_less :
      (c : Clip) (s : Store W) (p : Progress) (r : Bool × Store W × Progress)
      → RowDone h c s p r
      → (rest : Store W → Progress → Batch h rules)
      → ((s' : Store W) (p' : Progress) → remaining (rest s' p').0 (rest s' p').1 ≤ remaining s' p')
      → remaining (next_row h rules rest r).0 (next_row h rules rest r).1
        ≤ left
            (is_candidate rules)
            (candidate_law rules)
            (if r.0 then p.failed_ids else c.id ∷ p.failed_ids)
            (if r.0 then without c.id s.clips else s.clips)
  row_less c s p (false, s', p') (e, f) rest ih = rw (← e, ← f) (ih s' p')
  row_less c s p (true, s', p') (e, f) rest ih =
      rw (← e, ← f)
        (checked_less 0 s' p' rest ih (over_threshold h rules false s')
          (over_threshold_clips h rules false s'))

  rows_less :
      (rows : List Clip) (s : Store W) (p : Progress)
      → remaining (sweep_rows h rules rows s p).0 (sweep_rows h rules rows s p).1 ≤ remaining s p
  unfolding sweep_rows
  rows_less [] s p = omega arith
  rows_less (c ∷ rows) s p =
      let first =
        row_less c s p (evict h rules c s p) (evict-RowDone h rules c s p) (sweep_rows h rules rows)
          (rows_less rows) in
      omega (
        arith,
        first,
        left_row_less (is_candidate rules) (candidate_law rules) (evict h rules c s p).0 c
            p.failed_ids s.clips,
      )

  -- A batch that is not empty uses up a candidate, its first row.
  batch_fewer :
      (c : Clip) (rows : List Clip) (s : Store W) (p : Progress)
      → Memᴰ c s.clips
      → is_candidate rules p.failed_ids c ≡ true
      → suc (remaining (sweep_rows h rules (c ∷ rows) s p).0 (sweep_rows h rules (c ∷ rows) s p).1)
        ≤ remaining s p
  unfolding sweep_rows
  batch_fewer c rows s p m e =
      let first =
        row_less c s p (evict h rules c s p) (evict-RowDone h rules c s p) (sweep_rows h rules rows)
          (rows_less rows) in
      omega (
        arith,
        first,
        left_row_fewer (is_candidate rules) (candidate_law rules) (evict h rules c s p).0 c
            p.failed_ids s.clips m e,
      )

  abbrev Returns : Loop h rules → Type 0
  Returns r = (x : Store W × Progress × Stop) × (r ≡ some x)

  batch_candidates :
      (ids : List ℕ) (cs : List Clip)
      → Admitted (is_candidate rules ids) cs (next_batch rules ids cs)
  unfolding next_batch
  batch_candidates ids cs = Admitted-take (is_candidate rules ids) cs batch_size _ (
      Admitted-oldest_first (is_candidate rules ids) cs _ (
        Admitted-select (is_candidate rules ids) (is_candidate rules ids) cs (λ x e. e) cs
          (λ x m. m)))

  after-Returns :
      (fuel : ℕ) (again : Store W → Progress → Loop h rules) (b : Batch h rules)
      → suc (remaining b.0 b.1) ≤ fuel
      → ((s' : Store W) (p' : Progress) → suc (remaining s' p') ≤ fuel → Returns (again s' p'))
      → Returns (after_batch h rules again b)
  after-Returns fuel again (s, p, none) less ih = ih s p less
  after-Returns fuel again (s, p, some stop) less ih = ((s, p, stop), refl)

  batch-Returns :
      (fuel : ℕ) (again : Store W → Progress → Loop h rules) (s : Store W) (p : Progress)
      (rows : List Clip)
      → Admitted (is_candidate rules p.failed_ids) s.clips rows
      → suc (remaining s p) ≤ suc fuel
      → ((s' : Store W) (p' : Progress) → suc (remaining s' p') ≤ fuel → Returns (again s' p'))
      → Returns (on_batch h rules again s p rows)
  batch-Returns fuel again s p [] a less ih = ((s, p, ended), refl)
  batch-Returns fuel again s p (c ∷ rows) ((m, e), a) less ih =
      after-Returns fuel again (sweep_rows h rules (c ∷ rows) s p)
        (omega (arith, batch_fewer c rows s p m e, less)) ih

  pressure-Returns :
      (fuel : ℕ) (again : Store W → Progress → Loop h rules) (s : Store W) (p : Progress)
      (o : Option Bool × Store W)
      → o.1.clips ≡ s.clips
      → suc (remaining s p) ≤ suc fuel
      → ((s' : Store W) (p' : Progress) → suc (remaining s' p') ≤ fuel → Returns (again s' p'))
      → Returns (on_pressure h rules again p o)
  pressure-Returns fuel again s p (none, s') e less ih = ((s', p, raised), refl)
  pressure-Returns fuel again s p (some false, s') e less ih = ((s', p, ended), refl)
  pressure-Returns fuel again s p (some true, s') e less ih =
      batch-Returns fuel again s' p (next_batch rules p.failed_ids s'.clips)
        (batch_candidates p.failed_ids s'.clips) (rw e less) ih

  loop-Returns :
      (fuel : ℕ) (s : Store W) (p : Progress)
      → suc (remaining s p) ≤ fuel
      → Returns (pressure_loop h rules fuel s p)
  unfolding pressure_loop
  loop-Returns zero s p less = absurd (omega (arith, less))
  loop-Returns (suc fuel) s p less =
      pressure-Returns fuel (pressure_loop h rules fuel) s p (over_threshold h rules true s)
        (over_threshold_clips h rules true s) less (loop-Returns fuel)

  counted_clips :
      (s : Store W) (p : Progress) (o : Option Bool × Store W)
      → o.1.clips ≡ s.clips
      → (count_protected h rules p o).0.clips ≡ s.clips
  counted_clips s p (none, s') e = e
  counted_clips s p (some false, s') e = e
  counted_clips s p (some true, s') e = e

  conclude_clips : (x : Store W × Progress × Stop) → (conclude h rules x).0.clips ≡ x.0.clips
  unfolding conclude
  conclude_clips (s, p, raised) = refl
  conclude_clips (s, p, early) = refl
  conclude_clips (s, p, ended) = elim (Bool-cases rules.protect_ro) [
    | inl e ↦
        let s' = pruned_store h rules s p in
        rw e (
          counted_clips s p (over_threshold h rules true s') (over_threshold_clips h rules true s'))
    | inr e ↦ rw e refl
  ]

-- The pass for space returns after finitely many batches, also when nothing can be unlinked, and
-- all that it does to the index is to evict clips that are neither locked, nor referenced by an
-- export job, nor RO while these are protected.
pub disk_pressure_pass_evicts :
    {W : Type 0} (h : Host W) (rules : Rules) (s : Store W)
    → (r : Store W × Option Freed) × (disk_pressure_pass h rules s ≡ some r)
      × Evictions (is_candidate rules []) s.clips s.clips r.0.clips
unfolding disk_pressure_pass
disk_pressure_pass_evicts {W = W} h rules s =
    let (x, e) =
      loop-Returns h rules (length s.clips + 1) s (no_progress h rules)
        (unfold left in omega (arith, count-le-length (is_candidate rules []) s.clips)) in
    (
      conclude h rules x,
      rw (disk_pressure_pass, e) refl,
      rw (conclude_clips h rules x) (of_loop x e),
    )
  where
    of_loop :
        (x : Store W × Progress × Stop)
        → pressure_loop h rules (length s.clips + 1) s (no_progress h rules) ≡ some x
        → Evictions (is_candidate rules []) s.clips s.clips x.0.clips
    of_loop x e =
        let whole : LoopEvicts h rules s.clips s.clips
            (pressure_loop h rules (length s.clips + 1) s (no_progress h rules)) =
          loop-Evicts h rules s.clips (length s.clips + 1) s (no_progress h rules) (λ c m. m) in
        rw e at whole
