-- ===== src/Scanner/Rescan/Flush.antt =====
-- web/services/scanner.py: the index after a scan.
use mathlib.Core.List.{Memᴰ}
use mathlib.Core.Path.{subst}
use viofosync.Prelude.{
  ℕ, ◌≡◌, refl, sym, ap, ◌∙◌, ◌⊎◌, Bool, true, false, ◌&&◌, List, [], ◌∷◌, map, some, arith,
  if◌then◌else◌, length, any, inl, inr,
}
use viofosync.Prelude.Text.{Text, text_eq, text_eq_refl}
use viofosync.Grouping.{Grouping}
use viofosync.Queue.Row.{Table}
use viofosync.Queue.Table.{mem_of_mem-update, mem-select, mem_of_mem-select}
use viofosync.DeriveQueue.{Jobs, enqueue_missing}
use viofosync.DeriveQueue.Scan.{live, enqueue_missing_covers}
use viofosync.Scanner.{ClipMeta, Disk, iter_clips}
use viofosync.Scanner.Index.{
  Entry, ClipIndex, upsert_clips, prune, is_lock_queued, carry_locks, flush, scan,
}
use viofosync.Scanner.Rescan.{
  Carries, Carries-trans, KeptIn, written, update-KeptIn, IsIndexed, upsert_clips-KeptIn,
  upsert_clips-IsIndexed,
}

abbrev pub was_seen : List ClipMeta → Entry → Bool
was_seen clips e = any (text_eq e.path) (map (λ c. c.path) clips)

prune-mem :
    (clips : List ClipMeta) (x : ClipIndex) (e : Entry)
    → Memᴰ e x.rows
    → (clips ≡ []) ⊎ (was_seen clips e ≡ true)
    → Memᴰ e (prune (map (λ c. c.path) clips) x).rows
unfolding prune
prune-mem [] x e m s = m
prune-mem (c ∷ clips) x e m (inl h) = cc
prune-mem (c ∷ clips) x e m (inr h) = mem-select (was_seen (c ∷ clips)) x.rows m h

locked-Carries : (e : Entry) → Carries e (record e { locked = true })
locked-Carries e = record {
  same_id = refl;
  same_path = refl;
  same_basename = refl;
  same_duration = refl;
  stays_locked = λ h. refl;
  stays_examined = λ h. h;
}

seen_of_mem :
    (clips : List ClipMeta) (clip : ClipMeta) (e : Entry)
    → Memᴰ clip clips
    → e.path ≡ clip.path
    → was_seen clips e ≡ true
seen_of_mem [] clip e m h = elim m [ ]
seen_of_mem (c ∷ clips) clip e (Memᴰ.head i) h = rw (h, ← i, text_eq_refl clip.path) refl
seen_of_mem (c ∷ clips) clip e (Memᴰ.tail m) h =
    let later = seen_of_mem clips clip e m h in ground arith

-- The index before and after a scan that found the clips.
pub record Rescanned (clips : List ClipMeta) (queue : Table) (rows rows' : List Entry)
    : Type 0 where
  pub keeps : (e : Entry) → Memᴰ e rows → (clips ≡ []) ⊎ (was_seen clips e ≡ true) → KeptIn rows' e
  pub finds : (c : ClipMeta) → Memᴰ c clips → IsIndexed rows' c.path
  pub drops : (e : Entry) → Memᴰ e rows' → (clips ≡ []) ⊎ (was_seen clips e ≡ true)
  pub locks :
      (e : Entry)
      → Memᴰ e rows'
      → any (λ r. r.locked && text_eq r.filename e.basename) queue ≡ true
      → e.locked ≡ true

carry_locks-KeptIn :
    (queue : Table) (x : ClipIndex) (e : Entry)
    → Memᴰ e x.rows
    → KeptIn (carry_locks queue x).rows e
unfolding carry_locks
carry_locks-KeptIn queue x e m =
    update-KeptIn (is_lock_queued queue) (λ e. record e { locked = true }) x.rows e locked-Carries m

seen_of_prune :
    (clips : List ClipMeta) (x : ClipIndex) (e : Entry)
    → Memᴰ e (prune (map (λ c. c.path) clips) x).rows
    → (clips ≡ []) ⊎ (was_seen clips e ≡ true)
unfolding prune
seen_of_prune [] x e m = inl refl
seen_of_prune (c ∷ clips) x e m = inr (mem_of_mem-select (was_seen (c ∷ clips)) x.rows m).1

-- A row after the statement on locks.
carry_locks-row :
    (queue : Table) (x : ClipIndex) (e : Entry)
    → Memᴰ e (carry_locks queue x).rows
    → ((r : Entry) × Memᴰ r x.rows × (e.path ≡ r.path))
      × (any (λ r. r.locked && text_eq r.filename e.basename) queue ≡ true → e.locked ≡ true)
unfolding carry_locks
carry_locks-row queue x e m =
    let (r, mr, h) =
      mem_of_mem-update (is_lock_queued queue) (λ e. record e { locked = true }) x.rows m in
    (
      (
        r,
        mr,
        ap (λ (y : Entry). y.path) h
            ∙ (written (is_lock_queued queue) (λ e. record e { locked = true }) r
                (locked-Carries r)).same_path,
      ),
      subst
          (λ (y : Entry).
            any (λ r. r.locked && text_eq r.filename y.basename) queue ≡ true → y.locked ≡ true)
          (sym h) (by_case r (is_lock_queued queue r) refl),
    )
  where
    by_case :
        (r : Entry) (b : Bool)
        → is_lock_queued queue r ≡ b
        → any
            (λ q.
              q.locked && text_eq q.filename (if b then record r { locked = true } else r).basename)
            queue
          ≡ true
        → (if b then record r { locked = true } else r).locked ≡ true
    by_case r true e q = refl
    by_case r false e q = ground arith

flush-Rescanned :
    (clips : List ClipMeta) (now : ℕ) (queue : Table) (x : ClipIndex)
    → Rescanned clips queue x.rows (flush clips now queue x).rows
unfolding flush
flush-Rescanned clips now queue x =
    let paths = map (λ (c : ClipMeta). c.path) clips in
    let all = upsert_clips clips now x in
    record {
      keeps = λ e m s.
          let (a, ma, ca) = upsert_clips-KeptIn clips now x e m in
          let mp = prune-mem clips all a ma (same_seen e a ca.same_path s) in
          let (b, mb, cb) = carry_locks-KeptIn queue (prune paths all) a mp in
          (b, mb, Carries-trans e a b ca cb);
      finds = λ c m.
          let (a, ma, pa) = upsert_clips-IsIndexed clips now x c m in
          let mp = prune-mem clips all a ma (inr (seen_of_mem clips c a m pa)) in
          let (b, mb, cb) = carry_locks-KeptIn queue (prune paths all) a mp in
          (b, mb, cb.same_path ∙ pa);
      drops = λ e m.
          let ((r, mr, p), l) = carry_locks-row queue (prune paths all) e m in
          same_seen r e p (seen_of_prune clips all r mr);
      locks = λ e m q. (carry_locks-row queue (prune paths all) e m).1 q;
    }
  where
    same_seen :
        (e a : Entry)
        → a.path ≡ e.path
        → (clips ≡ []) ⊎ (was_seen clips e ≡ true)
        → (clips ≡ []) ⊎ (was_seen clips a ≡ true)
    same_seen e a h (inl s) = inl s
    same_seen e a h (inr s) = inr (rw h s)

mem-ids : (e : Entry) (t : List Entry) → Memᴰ e t → Memᴰ e.id (map (λ e. e.id) t)
mem-ids e [] m = elim m [ ]
mem-ids e (x ∷ t) (Memᴰ.head h) = Memᴰ.head (ap (λ (e : Entry). e.id) h)
mem-ids e (x ∷ t) (Memᴰ.tail m) = Memᴰ.tail (mem-ids e t m)

-- A scan whose names are all dates returns, with the number of clips it found. Every indexed clip
-- that was found again is kept with its id and its duration, still locked if it was, and still
-- marked as examined if it was; every clip found is indexed; a clip that was not found is dropped,
-- but a scan that finds nothing drops none; every clip that the queue
-- locks is locked; and every indexed clip has a row in the derive queue that has not failed.
pub scan-Rescanned :
    (disk : Disk) (destination : Text) (grouping : Grouping) (queue : Table) (now : ℕ)
    (x : ClipIndex) (jobs : Jobs) (clips : List ClipMeta)
    → iter_clips disk destination grouping queue ≡ some clips
    → (r : ClipIndex × Jobs × ℕ) × (scan disk destination grouping queue now (x, jobs) ≡ some r)
      × (r.2 ≡ length clips)
      × Rescanned clips queue x.rows r.0.rows
      × ((e : Entry) → Memᴰ e r.0.rows → any (live e.id) r.1 ≡ true)
unfolding scan
scan-Rescanned disk destination grouping queue now x jobs clips e =
    let x' = flush clips now queue x in
    (
      (x', (enqueue_missing (map (λ e. e.id) x'.rows) 1 now jobs).0, length clips),
      rw e refl,
      refl,
      flush-Rescanned clips now queue x,
      λ e m.
          (enqueue_missing_covers (map (λ e. e.id) x'.rows) 1 now jobs).0 e.id
            (mem-ids e x'.rows m),
    )
