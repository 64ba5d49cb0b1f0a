-- ===== src/Retention.antt =====
-- web/services/retention.py: which clips of the archive are deleted, and how. What the operating
-- system answers is a parameter, `Host`, of a type `W` of worlds.
pub mod Space
pub mod Pressure
pub mod Sweep
pub mod Room
pub mod Evictions
pub mod Index
pub mod Candidates
pub mod Guard
pub mod Ends
pub mod Making
pub mod Safety
pub mod Import
use viofosync.Prelude.{
  ℕ, zero, suc, ◌+◌, ◌-◌, ◌*◌, ◌^◌, ◌≡◌, Bool, true, false, not, ◌&&◌, ◌||◌, List, [], ◌∷◌, ◌++◌,
  Option, none, some, leb, ltb, ◌==◌, if◌then◌else◌, select, any, take,
}
use viofosync.Prelude.Text.{Text, codes, text_eq}
use viofosync.DeriveQueue.{Jobs, remove_clip}

-- What the module reads of a row of `clip_index`.
pub record Clip : Type 0 where
  pub id : ℕ
  pub path : Text
  pub basename : Text
  pub timestamp : ℕ
  pub event_type : Option Text
  pub locked : Bool

-- `(event_type or "") == "ro"`, and the SQL with COALESCE.
abbrev pub is_ro : Clip → Bool
is_ro c = elim c.event_type [ none ↦ false | some e ↦ text_eq e (codes "ro") ]

pub data Reason : Type 0 where
  is_locked ro_protected kept time : Reason

-- `timestamp < now - max_days * 86400`
abbrev pub is_old : ℕ → ℕ → Clip → Bool
is_old now max_days c = ltb (c.timestamp + max_days * 86400) now

unfoldable pub eligible_by_time : ℕ → ℕ → Bool → Clip → Bool × Reason
eligible_by_time now max_days protect_ro c =
    if c.locked
    then (false, is_locked)
    else if protect_ro && is_ro c
    then (false, ro_protected)
    else if max_days == 0
    then (false, kept)
    else if is_old now max_days c
    then (true, time)
    else (false, kept)

-- `os.remove`: done, FileNotFoundError, or another OSError.
pub data Removal : Type 0 where
  removed missing refused : Removal

-- `os`, `shutil` and `time` on the recordings folder, with the file names of thumbs.py and
-- filmstrip.py. `getsize` and `disk_usage` (used, total) are `none` where they raise OSError.
pub record Host (W : Type 0) : Type 0 where
  pub getsize : W → Text → Option ℕ
  pub remove : W → Text → Removal × W
  pub rmdir : W → Text → W
  pub dirname : Text → Text
  pub thumb_path : ℕ → Text
  pub sprite_path : ℕ → Text
  pub meta_path : ℕ → Text
  pub disk_usage : W → Option (ℕ × ℕ)
  pub scan_dir_bytes : W → ℕ
  pub monotonic : W → ℕ

-- The database's two tables, the size cache (its time and its bytes), and the world.
pub record Store (W : Type 0) : Type 0 where
  pub world : W
  pub clips : List Clip
  pub jobs : Jobs
  pub cache : Option (ℕ × ℕ)

module _ {W : Type 0} (h : Host W) where
  abbrev after_remove : Text → Text → Bool → Removal × W → Bool × W
  after_remove path p ok (removed, w) = (ok, w)
  after_remove path p ok (missing, w) = (ok, w)
  after_remove path p ok (refused, w) = (ok && not (text_eq p path), w)

  unfoldable pub unlink : Text → List Text → Bool × W → Bool × W
  unlink path [] r = r
  unlink path (p ∷ ps) (ok, w) = unlink path ps (after_remove path p ok (h.remove w p))

  abbrev size_of : Option ℕ → ℕ
  size_of none = 0
  size_of (some n) = n

  abbrev pub files_of : Clip → List Text
  files_of c =
      c.path
      ∷ (c.path ++ codes ".gpx")
      ∷ h.thumb_path c.id
      ∷ h.sprite_path c.id
      ∷ h.meta_path c.id
      ∷ []

  -- The bytes freed, whether the recording is gone, and the world after.
  unfoldable pub delete_clip_files : Clip → W → ℕ × Bool × W
  unfolding unlink
  delete_clip_files c w =
      let freed = size_of (h.getsize w c.path) in
      let (ok, w') = unlink c.path (files_of c) (true, w) in (if ok then freed else 0, ok, w')

  -- `set(dirs)`
  unfoldable pub add_dir : Text → List Text → List Text
  add_dir d dirs = if any (text_eq d) dirs then dirs else d ∷ dirs

  unfoldable pub prune_empty_dirs : List Text → W → W
  prune_empty_dirs [] w = w
  prune_empty_dirs (d ∷ dirs) w = prune_empty_dirs dirs (h.rmdir w d)

unfoldable pub delete_index_row : {W : Type 0} → ℕ → Store W → Store W
unfolding remove_clip
delete_index_row i s = record s {
  jobs = remove_clip i s.jobs;
  clips = select (λ c. not (c.id == i)) s.clips;
}

abbrev pub settle_delete :
    {W : Type 0} → Host W → Bool → Clip → Store W → ℕ × Bool × W → Store W × (ℕ × Bool)
settle_delete h prune c s (freed, false, w) = (record s { world = w }, (freed, false))
settle_delete h false c s (freed, true, w) =
    (delete_index_row c.id (record s { world = w }), (freed, true))
settle_delete h true c s (freed, true, w) = (
  record (delete_index_row c.id (record s { world = w })) {
    world = prune_empty_dirs h (h.dirname c.path ∷ []) w;
  },
  (freed, true),
)

unfoldable pub delete_clip : {W : Type 0} → Host W → Bool → Clip → Store W → Store W × (ℕ × Bool)
unfolding delete_clip_files delete_index_row prune_empty_dirs
delete_clip h prune c s = settle_delete h prune c s (delete_clip_files h c s.world)

-- `id NOT IN (…)`
abbrev pub protected_id : List ℕ → Clip → Bool
protected_id ids c = any (λ i. c.id == i) ids
