-- ===== src/Deletion/Local.antt =====
-- `delete_clips` and `set_locked` of web/services/queue.py, and what they spare.
use mathlib.Core.List.{Memᴰ}
use viofosync.Prelude.{
  ℕ, ◌+◌, ◌≡◌, refl, Bool, true, false, not, ◌&&◌, ◌||◌, List, [], ◌∷◌, ◌++◌, map, arith,
  if◌then◌else◌, select, any, count, length, Bool-cases, inl, inr,
}
use viofosync.Prelude.Text.{Text, text_eq, text_eq_iff}
use viofosync.Queue.Table.{update}
use viofosync.Queue.Row.{Table, named}
use viofosync.Queue.Ops.{skip_by_user}
use viofosync.Retention.{
  Clip, Host, Store, is_ro, add_dir, prune_empty_dirs, settle_delete, delete_clip,
  delete_clip_files, delete_index_row,
}
use viofosync.Retention.Evictions.{Evictions, unchanged, evicted, Evictions-trans, Admitted}

-- `basename IN (…)`
abbrev pub has_basename : List Text → Clip → Bool
has_basename names c = any (text_eq c.basename) names

-- `locked = 1 OR event_type = 'ro'`
abbrev pub is_pinned : Clip → Bool
is_pinned c = c.locked || is_ro c

-- The names that are refused without `force`: a set, the UNION of two queries.
unfoldable pub protected_names : List Text → List Clip → Table → List Text
unfolding named
protected_names names clips t =
    map (λ c. c.basename) (select (λ c. has_basename names c && is_pinned c) clips)
    ++ map (λ r. r.filename) (select (λ r. named names r && r.locked) t)

-- `len` of a set.
unfoldable pub distinct : List Text → List Text
distinct [] = []
distinct (n ∷ names) = if any (text_eq n) names then distinct names else n ∷ distinct names

pub record Removed : Type 0 where
  pub deleted : ℕ
  pub failed : List Text
  pub pruned : List Text

pub record Outcome : Type 0 where
  pub deleted : ℕ
  pub skipped : ℕ
  pub protected : List Text
  pub failed : ℕ

abbrev pub nothing_removed : Removed
nothing_removed = record { deleted = 0; failed = []; pruned = [] }

module _ {W : Type 0} (h : Host W) where
  abbrev pub note_removed : Clip → Removed → Store W × (ℕ × Bool) → Store W × Removed
  note_removed c d (s, (freed, true)) =
      (s, record d { deleted = d.deleted + 1; pruned = add_dir h (h.dirname c.path) d.pruned })
  note_removed c d (s, (freed, false)) = (s, record d { failed = c.basename ∷ d.failed })

  unfoldable pub remove_rows : List Clip → Store W × Removed → Store W × Removed
  unfolding delete_clip add_dir
  remove_rows [] x = x
  remove_rows (c ∷ rows) (s, d) = remove_rows rows (note_removed c d (delete_clip h false c s))

  -- The names that the call works on, by `force`.
  unfoldable pub targets_of : Bool → List Text → Store W → Table → List Text
  unfolding protected_names
  targets_of true names s t = names
  targets_of false names s t =
      select (λ f. not (any (text_eq f) (protected_names names s.clips t))) names

  unfoldable pub refused_of : Bool → List Text → Store W → Table → List Text
  unfolding protected_names distinct
  refused_of true names s t = []
  refused_of false names s t = distinct (protected_names names s.clips t)

  abbrev pub mark_rows :
      List Text → List Text → Store W × Removed → Table → Store W × Table × Outcome
  mark_rows targets refused (s, d) t =
      let mark = select (λ f. not (any (text_eq f) d.failed)) targets in
      (
        record s { world = prune_empty_dirs h d.pruned s.world },
        update (named mark) skip_by_user t,
        record {
          deleted = d.deleted;
          skipped = count (named mark) t;
          protected = refused;
          failed = length (distinct d.failed);
        },
      )

  -- Empty lists of names, targets and marks take no branch of their own: a statement on them
  -- selects and writes no row.
  unfoldable pub delete_clips : List Text → Bool → Store W → Table → Store W × Table × Outcome
  unfolding remove_rows targets_of refused_of update named prune_empty_dirs distinct
  delete_clips names force s t =
      let targets = targets_of force names s t in
      mark_rows targets (refused_of force names s t)
        (remove_rows (select (has_basename targets) s.clips) (s, nothing_removed)) t

  -- The store's index and the queue, with the number of names.
  unfoldable pub set_locked : List Text → Bool → Store W → Table → Store W × Table × ℕ
  unfolding update named
  set_locked names locked s t = (
    record s { clips = update (has_basename names) (λ c. record c { locked = locked }) s.clips },
    update (named names) (λ r. record r { locked = locked }) t,
    length names,
  )

  removed_clip :
      (p : Clip → Bool) (all : List Clip) (c : Clip) (s : Store W) (d : Removed) (e : ℕ × Bool × W)
      → Memᴰ c all
      → p c ≡ true
      → Evictions p all s.clips (note_removed c d (settle_delete h false c s e)).0.clips
  unfolding delete_index_row
  removed_clip p all c s d (freed, true, w) m k = evicted c m k unchanged
  removed_clip p all c s d (freed, false, w) m k = unchanged

  pub removed_rows :
      (p : Clip → Bool) (all rows : List Clip) (x : Store W × Removed)
      → Admitted p all rows
      → Evictions p all x.0.clips (remove_rows rows x).0.clips
  unfolding remove_rows delete_clip
  removed_rows p all [] x a = unchanged
  removed_rows p all (c ∷ rows) (s, d) ((m, k), a) =
      Evictions-trans (removed_clip p all c s d (delete_clip_files h c s.world) m k)
        (removed_rows p all rows _ a)

-- A name is selected from a list when it is in the list and passes.
pub any-select :
    (q : Text → Bool) (f : Text) (names : List Text)
    → q f ≡ false
    → any (text_eq f) (select q names) ≡ false
any-select q f [] h = refl
any-select q f (n ∷ names) h = elim (Bool-cases (text_eq f n)) [
  | inl e ↦ let k : (q n ≡ false) = rw ((text_eq_iff f n).0 e) at h in rw k (any-select q f names h)
  | inr e ↦ ground (arith, any-select q f names h)
]

pub any-select_absent :
    (q : Text → Bool) (f : Text) (names : List Text)
    → any (text_eq f) names ≡ false
    → any (text_eq f) (select q names) ≡ false
any-select_absent q f [] h = refl
any-select_absent q f (n ∷ names) h = ground (arith, any-select_absent q f names)
