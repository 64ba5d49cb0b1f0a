-- ===== src/Deletion/Pinned.antt =====
-- `delete_clips` without `force` spares what is pinned.
use mathlib.Core.List.{Memᴰ}
use viofosync.Prelude.{
  ◌≡◌, refl, Bool, true, false, ◌&&◌, ◌||◌, List, [], ◌∷◌, ◌++◌, map, arith, if◌then◌else◌, select,
  any, Bool-cases, inl, inr,
}
use viofosync.Prelude.Text.{Text, text_eq, text_eq_refl}
use viofosync.Queue.Table.{update, mem-update}
use viofosync.Queue.Row.{Row, Table, named}
use viofosync.Queue.Ops.{skip_by_user}
use viofosync.Retention.{Clip, Host, Store, is_ro}
use viofosync.Retention.Evictions.{UniqueIds, Evictions-spare, Admitted-select}
use viofosync.Deletion.Local.{
  has_basename, is_pinned, protected_names, targets_of, nothing_removed, delete_clips, removed_rows,
  any-select, any-select_absent,
}

any_append : (p : Text → Bool) (a b : List Text) → any p (a ++ b) ≡ (any p a || any p b)
any_append p [] b = refl
any_append p (n ∷ a) b = ground (arith, any_append p a b)

listed_name :
    {A : Type 0} (key : A → Text) (q : A → Bool) {x : A} (xs : List A)
    → Memᴰ x xs
    → q x ≡ true
    → any (text_eq (key x)) (map key (select q xs)) ≡ true
listed_name key q [] m e = elim m [ ]
listed_name key q (y ∷ ys) (Memᴰ.head k) e = rw (← k, e, text_eq_refl (key _)) refl
listed_name key q (y ∷ ys) (Memᴰ.tail m) e = elim (Bool-cases (q y)) [
  | inl i ↦ ground (arith, i, listed_name key q ys m e)
  | inr i ↦ rw i (listed_name key q ys m e)
]

module _ {W : Type 0} (h : Host W) (names : List Text) (s : Store W) (t : Table) where
  untargeted :
      (f : Text)
      → (any (text_eq f) names ≡ true → any (text_eq f) (protected_names names s.clips t) ≡ true)
      → any (text_eq f) (targets_of h false names s t) ≡ false
  unfolding targets_of
  untargeted f h = elim (Bool-cases (any (text_eq f) names)) [
    | inl asked ↦ any-select _ f names (rw (h asked) refl)
    | inr absent ↦ any-select_absent _ f names absent
  ]

  clip_protected :
      (c : Clip)
      → Memᴰ c s.clips
      → is_pinned c ≡ true
      → any (text_eq c.basename) names ≡ true
      → any (text_eq c.basename) (protected_names names s.clips t) ≡ true
  unfolding protected_names
  clip_protected c m e asked =
      let found =
        listed_name (λ (x : Clip). x.basename) (λ x. has_basename names x && is_pinned x) s.clips m
          (ground arith) in
      ground (
        arith,
        any_append (text_eq c.basename)
            (map (λ x. x.basename) (select (λ x. has_basename names x && is_pinned x) s.clips))
            (map (λ r. r.filename) (select (λ r. named names r && r.locked) t)),
      )

  row_protected :
      (r : Row)
      → Memᴰ r t
      → r.locked ≡ true
      → any (text_eq r.filename) names ≡ true
      → any (text_eq r.filename) (protected_names names s.clips t) ≡ true
  unfolding protected_names named
  row_protected r m e asked =
      let found =
        listed_name (λ (x : Row). x.filename) (λ x. named names x && x.locked) t m (ground arith) in
      ground (
        arith,
        any_append (text_eq r.filename)
            (map (λ x. x.basename) (select (λ x. has_basename names x && is_pinned x) s.clips))
            (map (λ x. x.filename) (select (λ x. named names x && x.locked) t)),
      )

  spared_row :
      (mark : List Text) (r : Row)
      → named mark r ≡ false
      → Memᴰ r t
      → Memᴰ r (update (named mark) skip_by_user t)
  spared_row mark r e m =
      let k : (if named mark r then skip_by_user r else r) ≡ r = rw e refl in
      let written : Memᴰ (if named mark r then skip_by_user r else r)
          (update (named mark) skip_by_user t) =
        mem-update (named mark) skip_by_user m in
      rw k at written

-- A delete that is not forced leaves every clip of the index that the user locked or that the
-- camera marked RO, and leaves every locked row of the queue as it was, whatever names are given
-- and whichever files can be unlinked.
pub delete_clips_spares :
    {W : Type 0} (h : Host W) (names : List Text) (s : Store W) (t : Table)
    → UniqueIds s.clips
    → ((c : Clip)
        → Memᴰ c s.clips
        → (c.locked || is_ro c) ≡ true
        → Memᴰ c (delete_clips h names false s t).0.clips)
      × ((r : Row) → Memᴰ r t → r.locked ≡ true → Memᴰ r (delete_clips h names false s t).1)
unfolding delete_clips
delete_clips_spares h names s t u = (
  λ c m e.
      let targets = targets_of h false names s t in
      Evictions-spare u m (untargeted h names s t c.basename (clip_protected h names s t c m e))
        (removed_rows h (has_basename targets) s.clips (select (has_basename targets) s.clips)
          (s, nothing_removed)
          (Admitted-select (has_basename targets) (has_basename targets) s.clips (λ x k. k) s.clips
            (λ x k. k)))
        m,
  λ r m e.
      spared_row h names s t _ r
        (any-select_absent _ r.filename (targets_of h false names s t)
          (untargeted h names s t r.filename (row_protected h names s t r m e)))
        m,
)
