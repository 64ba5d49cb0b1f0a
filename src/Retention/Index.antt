-- ===== src/Retention/Index.antt =====
-- What the steps of a pass of retention.py do to the index.
use viofosync.Prelude.{
  ℕ, ◌≡◌, refl, ap, Bool, true, false, ◌∷◌, Option, none, some, arith, ◌==◌, if◌then◌else◌,
  Bool-cases, inl, inr,
}
use viofosync.Retention.{Clip, Host, Store, delete_clip_files, delete_index_row}
use viofosync.Retention.Space.{
  Rules, over_threshold, quota_exceeded, cached_used_bytes, pct_exceeded, cache_subtract, or_quota,
}
use viofosync.Retention.Pressure.{Progress, note_row, evict}
use viofosync.Retention.Evictions.{without}

module _ {W : Type 0} (h : Host W) where
  cached_clips : (b : Bool) (s : Store W) → (cached_used_bytes h b s).1.clips ≡ s.clips
  unfolding cached_used_bytes
  cached_clips b s = ground arith

  quota_clips : (q : ℕ) (b : Bool) (s : Store W) → (quota_exceeded h q b s).1.clips ≡ s.clips
  unfolding quota_exceeded
  quota_clips q b s = elim (Bool-cases (q == 0)) [
    | inl e ↦ rw e refl
    | inr e ↦ rw e (cached_clips b s)
  ]

  pub over_threshold_clips :
      (rules : Rules) (b : Bool) (s : Store W) → (over_threshold h rules b s).1.clips ≡ s.clips
  unfolding over_threshold
  over_threshold_clips rules b s = of_pct (pct_exceeded h rules.disk_pct s.world)
    where
      of_pct : (o : Option Bool) → (or_quota h rules.quota_gb b s o).1.clips ≡ s.clips
      of_pct none = refl
      of_pct (some true) = refl
      of_pct (some false) = quota_clips rules.quota_gb b s

  pub cache_subtract_clips : (n : ℕ) (s : Store W) → (cache_subtract h n s).clips ≡ s.clips
  unfolding cache_subtract
  cache_subtract_clips n s = ground arith

  -- The index and the failures after one row of a batch.
  abbrev pub RowDone : Clip → Store W → Progress → Bool × Store W × Progress → Type 0
  RowDone c s p (removed, s', p') =
      (s'.clips ≡ (if removed then without c.id s.clips else s.clips))
      × (p'.failed_ids ≡ (if removed then p.failed_ids else c.id ∷ p.failed_ids))

  pub evict-RowDone :
      (rules : Rules) (c : Clip) (s : Store W) (p : Progress) → RowDone c s p (evict h rules c s p)
  unfolding evict
  evict-RowDone rules c s p = noted (delete_clip_files h c s.world)
    where
      noted : (r : ℕ × Bool × W) → RowDone c s p (note_row h rules c s p r)
      noted (freed, true, w) = (
        unfold note_row in
            unfold delete_index_row in
            ap (without c.id) (cache_subtract_clips freed (record s { world = w })),
        unfold note_row in refl,
      )
      noted (freed, false, w) = (unfold note_row in refl, unfold note_row in refl)
