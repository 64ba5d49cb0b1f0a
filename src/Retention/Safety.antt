-- ===== src/Retention/Safety.antt =====
-- What the entry points of retention.py never delete from the archive.
use mathlib.Core.List.{Memᴰ}
use viofosync.Prelude.{
  ℕ, ◌≡◌, refl, Bool, true, false, not, ◌&&◌, ◌||◌, List, [], ◌∷◌, Option, none, some, arith, ◌==◌,
  select, Bool-cases, inl, inr,
}
use viofosync.Queue.Keys.{select-Unique}
use viofosync.Retention.{
  Clip, Host, Store, Reason, is_locked, ro_protected, kept, time, is_ro, is_old, eligible_by_time,
  protected_id, delete_clip_files, delete_index_row,
}
use viofosync.Retention.Space.{Rules}
use viofosync.Retention.Pressure.{Freed, is_candidate, disk_pressure_pass}
use viofosync.Retention.Sweep.{
  Swept, Aged, nothing_aged, remove_aged, decide, age_clip, age_clips, time_phase, with_pass,
  space_phase, sweep,
}
use viofosync.Retention.Evictions.{
  UniqueIds, Evictions, unchanged, evicted, Evictions-trans, Evictions-spare, Admitted,
  Admitted-select,
}
use viofosync.Retention.Ends.{disk_pressure_pass_evicts}

-- A clip that the user or the camera locked, or that an export job needs.
abbrev pub is_guarded : Rules → Clip → Bool
is_guarded rules c = c.locked || (rules.protect_ro && is_ro c) || protected_id rules.protect_ids c

guarded_candidate :
    (rules : Rules) (c : Clip) → is_guarded rules c ≡ true → is_candidate rules [] c ≡ false
unfolding is_candidate
guarded_candidate rules c e = ground arith

Evictions-UniqueIds :
    {p : Clip → Bool} {all cs ds : List Clip} → Evictions p all cs ds → UniqueIds cs → UniqueIds ds
Evictions-UniqueIds unchanged u = u
Evictions-UniqueIds {cs = cs} (evicted x m h d) u =
    Evictions-UniqueIds d (select-Unique (λ c. c.id) (λ c. not (c.id == x.id)) cs u)

module _ {W : Type 0} (h : Host W) (rules : Rules) (now max_days : ℕ) where
  -- What the time rule deletes.
  abbrev pub outlived : Clip → Bool
  outlived c =
      (eligible_by_time now max_days rules.protect_ro c).0 && not (protected_id rules.protect_ids c)

  abbrev Spent : List Clip → List Clip → List Clip → Type 0
  Spent = Evictions outlived

  removed_clips :
      (all : List Clip) (c : Clip) (s : Store W) (a : Aged) (d : ℕ × Bool × W)
      → Memᴰ c all
      → outlived c ≡ true
      → Spent all s.clips (remove_aged h rules now max_days c s a d).0.clips
  unfolding delete_index_row
  removed_clips all c s a (freed, false, w) m e = unchanged
  removed_clips all c s a (freed, true, w) m e = evicted c m e unchanged

  decided :
      (all : List Clip) (c : Clip) (s : Store W) (a : Aged) (v : Bool × Reason)
      → Memᴰ c all
      → (v.0 ≡ true → outlived c ≡ true)
      → Spent all s.clips (decide h rules now max_days c s a v).0.clips
  decided all c s a (true, reason) m e =
      removed_clips all c s a (delete_clip_files h c s.world) m (e refl)
  decided all c s a (false, is_locked) m e = unchanged
  decided all c s a (false, ro_protected) m e = unchanged
  decided all c s a (false, kept) m e = unchanged
  decided all c s a (false, time) m e = unchanged

  aged :
      (all rows : List Clip) (r : Store W × Aged)
      → Admitted (λ c. not (protected_id rules.protect_ids c)) all rows
      → Spent all r.0.clips (age_clips h rules now max_days rows r).0.clips
  unfolding age_clips age_clip
  aged all [] r g = unchanged
  aged all (c ∷ rows) r ((m, e), g) =
      Evictions-trans
        (decided all c r.0 r.1 (eligible_by_time now max_days rules.protect_ro c) m
          (λ v. rw (v, e) refl))
        (aged all rows (age_clip h rules now max_days c r) g)

  time_phase_evicts :
      (s : Store W) → Spent s.clips s.clips (time_phase h rules now max_days s).0.clips
  unfolding time_phase
  time_phase_evicts s = elim (Bool-cases (max_days == 0)) [
    | inl e ↦ rw e unchanged
    | inr e ↦ rw e (
        aged s.clips
          (select (λ c. is_old now max_days c && not (protected_id rules.protect_ids c)) s.clips)
          (s, nothing_aged)
          (Admitted-select (λ c. not (protected_id rules.protect_ids c))
            (λ c. is_old now max_days c && not (protected_id rules.protect_ids c)) s.clips
            (λ c g. ground arith) s.clips (λ c m. m)))
  ]

  guarded_outlived : (c : Clip) → is_guarded rules c ≡ true → outlived c ≡ false
  unfolding eligible_by_time
  guarded_outlived c e = ground arith

  -- A result of the sweep whose index still has the clip.
  abbrev pub Keeps : Clip → Option (Store W × Option Swept) → Type 0
  Keeps c o = (r : Store W × Option Swept) × (o ≡ some r) × Memᴰ c r.0.clips

  passed :
      (a : Aged) (c : Clip) (s : Store W) (o : Option (Store W × Option Freed))
      (r : Store W × Option Freed)
      → o ≡ some r
      → Memᴰ c r.0.clips
      → Keeps c (with_pass h rules now max_days a o)
  passed a c s o (s', none) e m = rw e ((s', none), refl, m)
  passed a c s o (s', some f) e m = rw e ((s', some _), refl, m)

  spaced :
      (c : Clip) (t : Store W × Aged)
      → UniqueIds t.0.clips
      → Memᴰ c t.0.clips
      → is_guarded rules c ≡ true
      → Keeps c (space_phase h rules now max_days t)
  spaced c (s, a) u m g = elim (Bool-cases ((rules.disk_pct == 0) && (rules.quota_gb == 0))) [
    | inl e ↦ rw e ((s, some _), refl, m)
    | inr e ↦
        let (r, e', ev) = disk_pressure_pass_evicts h rules s in
        rw e (
          passed a c s (disk_pressure_pass h rules s) r e'
            (Evictions-spare u m (guarded_candidate rules c g) ev m))
  ]

  -- A sweep returns, and whatever the rules, the clock and the file system say, a clip that is
  -- locked, RO while these are protected, or referenced by an export job is still in the index.
  pub sweep_spares :
      (s : Store W) (c : Clip)
      → UniqueIds s.clips
      → Memᴰ c s.clips
      → is_guarded rules c ≡ true
      → (r : Store W × Option Swept) × (sweep h rules now max_days s ≡ some r) × Memᴰ c r.0.clips
  unfolding sweep
  sweep_spares s c u m g =
      let ev = time_phase_evicts s in
      spaced c (time_phase h rules now max_days s) (Evictions-UniqueIds ev u)
        (Evictions-spare u m (guarded_outlived c g) ev m) g
