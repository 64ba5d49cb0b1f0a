-- ===== src/Retention/Import.antt =====
-- What `make_room_for` of retention.py promises to the importer, and `delete_clip` to its callers.
use mathlib.Core.List.{Memᴰ}
use viofosync.Prelude.{
  ℕ, ◌+◌, ◌≡◌, refl, Bool, true, false, not, ◌&&◌, ◌||◌, [], some, arith, ltb, ◌==◌, if◌then◌else◌,
  count-le-length, length, Bool-cases, inl, inr,
}
use viofosync.DeriveQueue.{remove_clip}
use viofosync.Retention.{
  Clip, Host, Store, delete_clip_files, delete_index_row, settle_delete, delete_clip,
  prune_empty_dirs,
}
use viofosync.Retention.Space.{Rules}
use viofosync.Retention.Room.{
  is_evictable, Room, RoomLoop, room_loop, start_room, finish_room, make_room_for,
}
use viofosync.Retention.Evictions.{UniqueIds, without, Evictions, Evictions-spare}
use viofosync.Retention.Candidates.{left}
use viofosync.Retention.Making.{Settled, room_loop_done}
use viofosync.Retention.Safety.{is_guarded}

-- The loop of `make_room_for` returns. It evicts only clips that are older than the imported one,
-- not guarded and not referenced by an export job. When it answers true the new clip fits under
-- the rules; when it answers false it does not, and no clip is left that could be evicted, but
-- those that could not be unlinked.
pub make_room_for_settles :
    {W : Type 0} (h : Host W) (rules : Rules) (size before_ts : ℕ) (s : Store W)
    → (x : Store W × Room × Bool) × (room_loop h rules size before_ts
          (length s.clips + 1)
          (s, start_room h rules size before_ts s)
        ≡ some x)
      × Evictions (is_evictable rules before_ts []) s.clips s.clips x.0.clips
      × Settled h rules size before_ts s.clips x
make_room_for_settles h rules size before_ts s =
    room_loop_done h rules size before_ts s.clips (length s.clips + 1)
      (s, start_room h rules size before_ts s)
      (unfold left in omega (arith, count-le-length (is_evictable rules before_ts []) s.clips))
      (λ c m. m)

guarded_evictable :
    (rules : Rules) (before_ts : ℕ) (c : Clip)
    → (is_guarded rules c || not (ltb c.timestamp before_ts)) ≡ true
    → is_evictable rules before_ts [] c ≡ false
unfolding is_evictable
guarded_evictable rules before_ts c e = ground arith

finished :
    {W : Type 0} (h : Host W) (rules : Rules) (size before_ts : ℕ) (c : Clip)
    (l : RoomLoop h rules size before_ts) (x : Store W × Room × Bool)
    → l ≡ some x
    → Memᴰ c x.0.clips
    → (r : Store W × Bool) × (finish_room h rules size before_ts l ≡ some r) × Memᴰ c r.0.clips
finished h rules size before_ts c l (s, r, fits) e m =
    ((record s { world = prune_empty_dirs h r.pruned s.world }, fits), rw e refl, m)

-- `make_room_for` returns, and never deletes a clip that is as new as the one being imported, nor
-- one that is locked, RO while these are protected, or referenced by an export job.
pub make_room_for_spares :
    {W : Type 0} (h : Host W) (rules : Rules) (size before_ts : ℕ) (s : Store W) (c : Clip)
    → UniqueIds s.clips
    → Memᴰ c s.clips
    → (is_guarded rules c || not (ltb c.timestamp before_ts)) ≡ true
    → (r : Store W × Bool) × (make_room_for h rules size before_ts s ≡ some r) × Memᴰ c r.0.clips
unfolding make_room_for
make_room_for_spares h rules size before_ts s c u m g =
    elim (Bool-cases ((rules.disk_pct == 0) && (rules.quota_gb == 0))) [
      | inl e ↦ ((s, true), rw (make_room_for, e) refl, m)
      | inr e ↦
          let (x, got, ev, done) = make_room_for_settles h rules size before_ts s in
          rw (make_room_for, e)
            (finished h rules size before_ts c _ x got
              (Evictions-spare u m (guarded_evictable rules before_ts c g) ev m))
    ]

-- When the recording could not be unlinked, its index row and its derive job stay and no byte is
-- reported as freed; otherwise the rows of its id, and no others, are gone from both tables.
pub delete_clip_rows :
    {W : Type 0} (h : Host W) (prune : Bool) (c : Clip) (s : Store W)
    → let r = delete_clip h prune c s in
      (r.1.1 ≡ (delete_clip_files h c s.world).1)
      × (r.0.clips ≡ (if r.1.1 then without c.id s.clips else s.clips))
      × (r.0.jobs ≡ (if r.1.1 then remove_clip c.id s.jobs else s.jobs))
      × (r.1.1 ≡ false → r.1.0 ≡ 0)
unfolding delete_clip
delete_clip_rows {W = W} h prune c s =
    of_files prune (delete_clip_files h c s.world) (unfold delete_clip_files in λ e. rw e refl)
  where
    of_files :
        (b : Bool) (d : ℕ × Bool × W)
        → (d.1 ≡ false → d.0 ≡ 0)
        → let r = settle_delete h b c s d in
          (r.1.1 ≡ d.1)
          × (r.0.clips ≡ (if r.1.1 then without c.id s.clips else s.clips))
          × (r.0.jobs ≡ (if r.1.1 then remove_clip c.id s.jobs else s.jobs))
          × (r.1.1 ≡ false → r.1.0 ≡ 0)
    of_files b (freed, false, w) z = (refl, refl, refl, z)
    of_files true (freed, true, w) z =
        (refl, unfold delete_index_row in refl, unfold delete_index_row in refl, z)
    of_files false (freed, true, w) z =
        (refl, unfold delete_index_row in refl, unfold delete_index_row in refl, z)
