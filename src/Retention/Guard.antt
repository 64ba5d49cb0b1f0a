-- ===== src/Retention/Guard.antt =====
-- No pass of retention.py for space evicts a clip that its rules guard.
use mathlib.Core.List.{Memᴰ}
use viofosync.Prelude.{
  ℕ, zero, suc, ◌≡◌, Bool, true, false, List, [], ◌∷◌, Option, none, some, arith,
}
use viofosync.Retention.{Clip, Host, Store}
use viofosync.Retention.Space.{Rules, over_threshold}
use viofosync.Retention.Pressure.{
  Progress, batch_size, is_candidate, next_batch, evict, Batch, check_again, next_row, sweep_rows,
  Loop, after_batch, on_batch, on_pressure, pressure_loop,
}
use viofosync.Retention.Evictions.{
  Evictions, unchanged, evicted, Evictions-trans, Evictions-subset, Admitted, Admitted-oldest_first,
  Admitted-take, Admitted-select,
}
use viofosync.Retention.Index.{RowDone, evict-RowDone, over_threshold_clips}

-- A clip that no batch of the pass can hold is not a candidate to begin with.
abbrev pub admits : Rules → Clip → Bool
admits rules = is_candidate rules []

admits_candidate :
    (rules : Rules) (failed_ids : List ℕ) (x : Clip)
    → is_candidate rules failed_ids x ≡ true
    → admits rules x ≡ true
unfolding is_candidate
admits_candidate rules failed_ids x e = ground arith

batch-Admitted :
    (rules : Rules) (failed_ids : List ℕ) (all cs : List Clip)
    → ((x : Clip) → Memᴰ x cs → Memᴰ x all)
    → Admitted (admits rules) all (next_batch rules failed_ids cs)
unfolding next_batch
batch-Admitted rules failed_ids all cs sub = Admitted-take (admits rules) all batch_size _ (
    Admitted-oldest_first (admits rules) all _ (
      Admitted-select (admits rules) (is_candidate rules failed_ids) all
        (admits_candidate rules failed_ids) cs sub))

module _ {W : Type 0} (h : Host W) (rules : Rules) (all : List Clip) where
  abbrev pub Evicts : List Clip → List Clip → Type 0
  Evicts = Evictions (admits rules) all

  checked :
      (s : Store W) (p : Progress) (rest : Store W → Progress → Batch h rules)
      → ((s' : Store W) (p' : Progress) → Evicts s'.clips (rest s' p').0.clips)
      → (o : Option Bool × Store W) → o.1.clips ≡ s.clips
      → Evicts s.clips (check_again h rules rest p o).0.clips
  checked s p rest ih (none, s') e = rw e unchanged
  checked s p rest ih (some true, s') e = rw (← e) (ih s' p)
  checked s p rest ih (some false, s') e = rw e unchanged

  row-Evicts :
      (c : Clip) (s : Store W) (p : Progress) (r : Bool × Store W × Progress)
      → RowDone h c s p r
      → Memᴰ c all
      → admits rules c ≡ true
      → (rest : Store W → Progress → Batch h rules)
      → ((s' : Store W) (p' : Progress) → Evicts s'.clips (rest s' p').0.clips)
      → Evicts s.clips (next_row h rules rest r).0.clips
  row-Evicts c s p (false, s', p') (e, f) m a rest ih = rw (← e) (ih s' p')
  row-Evicts c s p (true, s', p') (e, f) m a rest ih = evicted c m a (
      rw (← e) (
        checked s' p' rest ih (over_threshold h rules false s')
          (over_threshold_clips h rules false s')))

  rows-Evicts :
      (rows : List Clip) (s : Store W) (p : Progress)
      → Admitted (admits rules) all rows
      → Evicts s.clips (sweep_rows h rules rows s p).0.clips
  unfolding sweep_rows
  rows-Evicts [] s p h = unchanged
  rows-Evicts (c ∷ rows) s p ((m, a), hs) =
      row-Evicts c s p (evict h rules c s p) (evict-RowDone h rules c s p) m a
        (sweep_rows h rules rows) (λ s' p'. rows-Evicts rows s' p' hs)

  abbrev pub LoopEvicts : List Clip → Loop h rules → Type 0
  LoopEvicts cs none = Unit
  LoopEvicts cs (some (s, p, stop)) = Evicts cs s.clips

  LoopEvicts-trans :
      {cs ds : List Clip} (r : Loop h rules) → Evicts cs ds → LoopEvicts ds r → LoopEvicts cs r
  LoopEvicts-trans none d e = tt
  LoopEvicts-trans (some (s, p, stop)) d e = Evictions-trans d e

  abbrev Within : Store W → Type 0
  Within s = (x : Clip) → Memᴰ x s.clips → Memᴰ x all

  batch-Evicts :
      (again : Store W → Progress → Loop h rules) (cs : List Clip) (b : Batch h rules)
      → ((x : Clip) → Memᴰ x cs → Memᴰ x all)
      → Evicts cs b.0.clips
      → ((s' : Store W) (p' : Progress) → Within s' → LoopEvicts s'.clips (again s' p'))
      → LoopEvicts cs (after_batch h rules again b)
  batch-Evicts again cs (s, p, none) sub e ih =
      LoopEvicts-trans (again s p) e (ih s p (λ x m. sub x (Evictions-subset e m)))
  batch-Evicts again cs (s, p, some stop) sub e ih = e

  on_batch-Evicts :
      (again : Store W → Progress → Loop h rules) (s : Store W) (p : Progress) (rows : List Clip)
      → Within s
      → Admitted (admits rules) all rows
      → ((s' : Store W) (p' : Progress) → Within s' → LoopEvicts s'.clips (again s' p'))
      → LoopEvicts s.clips (on_batch h rules again s p rows)
  on_batch-Evicts again s p [] sub a ih = unchanged
  on_batch-Evicts again s p (c ∷ rows) sub a ih =
      batch-Evicts again s.clips (sweep_rows h rules (c ∷ rows) s p) sub
        (rows-Evicts (c ∷ rows) s p a) ih

  pressure-Evicts :
      (again : Store W → Progress → Loop h rules) (p : Progress) (s : Store W)
      (o : Option Bool × Store W)
      → o.1.clips ≡ s.clips
      → Within s
      → ((s' : Store W) (p' : Progress) → Within s' → LoopEvicts s'.clips (again s' p'))
      → LoopEvicts s.clips (on_pressure h rules again p o)
  pressure-Evicts again p s (none, s') e sub ih = rw e unchanged
  pressure-Evicts again p s (some false, s') e sub ih = rw e unchanged
  pressure-Evicts again p s (some true, s') e sub ih =
      let sub' : Within s' = rw e sub in
      rw (← e) (
        on_batch-Evicts again s' p (next_batch rules p.failed_ids s'.clips) sub'
          (batch-Admitted rules p.failed_ids all s'.clips sub') ih)

  pub loop-Evicts :
      (fuel : ℕ) (s : Store W) (p : Progress)
      → Within s
      → LoopEvicts s.clips (pressure_loop h rules fuel s p)
  unfolding pressure_loop
  loop-Evicts zero s p sub = tt
  loop-Evicts (suc fuel) s p sub =
      pressure-Evicts (pressure_loop h rules fuel) p s (over_threshold h rules true s)
        (over_threshold_clips h rules true s) sub (loop-Evicts fuel)
