-- ===== src/Deletion/Requests.antt =====
-- Every request of web/services/queue.py that changes rows of `download_queue`, the deletes and the
-- locks too, against the state machine.
use mathlib.Core.List.{Memᴰ}
use viofosync.Prelude.{
  ℕ, ◌≡◌, refl, ◌⊎◌, inl, inr, Bool, true, false, List, [], ◌∷◌, none, some, arith, select, any,
  Bool-cases,
}
use viofosync.Prelude.Text.{Text, text_eq}
use viofosync.Queue.Table.{Rows, update-Rows, mem_of_mem-select}
use viofosync.Queue.Row.{gone, skipped, user, Row, Table, named, ro_path}
use viofosync.Queue.Ops.{skip_by_user}
use viofosync.Queue.Machine.{Move}
use viofosync.Queue.Machine.Commands.{Command, perform, perform-Moves}
use viofosync.Retention.{Host, Store}
use viofosync.Deletion.{
  Dashcam, Deletes, is_kept, delete_row, delete_rows, delete_from_camera, no_deletes,
  delete_dashcam_file, note_answer,
}
use viofosync.Deletion.Local.{delete_clips, set_locked, targets_of, any-select_absent}

pub data Request : Type 0 where
  of_queue : Command → Request
  delete_local : List Text → (force : Bool) → Request
  delete_remote : List Text → Request
  lock : List Text → (locked : Bool) → Request

-- What a request leaves of the queue, with the archive and the camera that it meets.
unfoldable pub ask :
    {W C : Type 0}
    → Host W
    → Dashcam C
    → (base_url : Text) → ℕ
    → Request
    → Store W
    → C
    → Table
    → Table
unfolding perform delete_clips delete_from_camera set_locked
ask h cam base_url now (of_queue c) s camera t = perform now c t
ask h cam base_url now (delete_local names force) s camera t = (delete_clips h names force s t).1
ask h cam base_url now (delete_remote names) s camera t =
    (delete_from_camera cam base_url names t camera).0
ask h cam base_url now (lock names locked) s camera t = (set_locked h names locked s t).1

-- A row of the queue of that name is among the names, not locked and not under RO.
abbrev pub MayGo : List Text → Table → Row → Type 0
MayGo names t a =
    (x : Row) × Memᴰ x t
    × (text_eq a.filename x.filename ≡ true)
    × (named names x ≡ true)
    × (x.locked ≡ false)
    × (ro_path x.source_dir ≡ false)

-- What a request does to a row: a delete in the archive skips rows of its names, a delete on the
-- camera marks rows gone, a lock writes no state, and any other follows an arrow.
abbrev pub Changes : Table → Request → Row → Row → Type 0
Changes t (of_queue c) a b = Move a b
Changes t (delete_local names force) a b =
    (a ≡ b)
    ⊎ ((named names a ≡ true)
        × (b ≡ record a { state = skipped; skip_reason = some user; requested_at = none }))
Changes t (delete_remote names) a b = (a ≡ b) ⊎ (MayGo names t a × (b ≡ record a { state = gone }))
Changes t (lock names locked) a b =
    (a ≡ b) ⊎ ((named names a ≡ true) × (b ≡ record a { locked = locked }))

selected_name :
    (q : Text → Bool) (f : Text) (names : List Text)
    → any (text_eq f) (select q names) ≡ true
    → any (text_eq f) names ≡ true
selected_name q f names e = elim (Bool-cases (any (text_eq f) names)) [
  | inl there ↦ there
  | inr absent ↦ absurd (let none_left = any-select_absent q f names absent in cc)
]

module _ {W : Type 0} (h : Host W) (names : List Text) (s : Store W) (t : Table) where
  targets_of-named :
      (force : Bool) (f : Text)
      → any (text_eq f) (targets_of h force names s t) ≡ true
      → any (text_eq f) names ≡ true
  unfolding targets_of
  targets_of-named true f e = e
  targets_of-named false f e = selected_name _ f names e

-- The rows that the camera lost are among those it was asked to delete.
abbrev Asked : List Text → Table → Text → Type 0
Asked gone_before rows f =
    (any (text_eq f) gone_before ≡ true)
    ⊎ ((x : Row) × Memᴰ x rows × (text_eq f x.filename ≡ true) × (is_kept x ≡ false))

module _ {C : Type 0} (cam : Dashcam C) (base_url : Text) where
  note_answer-Asked :
      (f : Text) (r : Row) (d : Deletes) (answer : Bool × C)
      → any (text_eq f) (note_answer cam base_url r d answer).0.gone_names ≡ true
      → (text_eq f r.filename ≡ true) ⊎ (any (text_eq f) d.gone_names ≡ true)
  note_answer-Asked f r d (true, c) e = elim (Bool-cases (text_eq f r.filename)) [
    | inl same ↦ inl same
    | inr other ↦ inr (ground arith)
  ]
  note_answer-Asked f r d (false, c) e = inr e

  delete_rows-Asked :
      (f : Text) (rows : Table) (d : Deletes) (c : C)
      → any (text_eq f) (delete_rows cam base_url rows (d, c)).0.gone_names ≡ true
      → Asked d.gone_names rows f
  unfolding delete_rows delete_row
  delete_rows-Asked f [] d c e = inl e
  delete_rows-Asked f (r ∷ rows) d c e =
      elim (delete_rows-Asked f rows (delete_row cam base_url r (d, c)).0
        (delete_row cam base_url r (d, c)).1 e) [
          | inl here ↦ elim (Bool-cases (is_kept r)) [
            | inl kept ↦ inl (rw kept at here)
            | inr free ↦
                elim (note_answer-Asked f r d
                  (delete_dashcam_file cam base_url r.source_dir r.filename c) (rw free at here)) [
                    | inl same ↦ inr (r, Memᴰ.head refl, same, free)
                    | inr before ↦ inl before
                  ]
          ]
          | inr (x, m, same, free) ↦ inr (x, Memᴰ.tail m, same, free)
        ]

free_row : (x : Row) → is_kept x ≡ false → (x.locked ≡ false) × (ro_path x.source_dir ≡ false)
unfolding is_kept
free_row x e = (ground arith, ground arith)

delete_clips-Changes :
    {W : Type 0} (h : Host W) (names : List Text) (force : Bool) (s : Store W) (t : Table)
    → Rows (Changes t (delete_local names force)) t (delete_clips h names force s t).1
unfolding delete_clips named
delete_clips-Changes h names force s t =
    update-Rows (Changes t (delete_local names force)) _ skip_by_user (λ r. inl refl)
      (λ r e.
        inr (targets_of-named h names s t force r.filename (selected_name _ r.filename _ e), refl))
      t

same-Rows : (R : Row → Row → Type 0) (t : Table) → ((r : Row) → R r r) → Rows R t t
same-Rows R [] h = Rows.none_left
same-Rows R (r ∷ t) h = Rows.row (h r) (same-Rows R t h)

delete_from_camera-Changes :
    {C : Type 0} (cam : Dashcam C) (base_url : Text) (names : List Text) (t : Table) (c : C)
    → Rows (Changes t (delete_remote names)) t (delete_from_camera cam base_url names t c).0
unfolding delete_from_camera
delete_from_camera-Changes cam base_url [] t c = same-Rows _ t (λ r. inl refl)
delete_from_camera-Changes cam base_url (n ∷ names) t c =
    update-Rows (Changes t (delete_remote (n ∷ names))) _ (λ r. record r { state = gone })
      (λ r. inl refl)
      (λ r e.
        elim (delete_rows-Asked cam base_url r.filename (select (named (n ∷ names)) t) no_deletes c
          (unfold named in e)) [
            | inl before ↦ absurd cc
            | inr (x, m, same, free) ↦
                let (mt, asked) = mem_of_mem-select (named (n ∷ names)) t m in
                let (open_row, outside) = free_row x free in
                inr ((x, mt, same, asked, open_row, outside), refl)
          ])
      t

-- Every request keeps the rows, in their order, with their ids and names. A request other than a
-- delete or a lock moves a row along an arrow of the state machine or leaves its state. A delete of
-- clips, forced or not, may only skip rows of the names it is given, as skipped by the user. A delete
-- on the camera may only mark rows gone, of the name of a row of the queue that is among the names
-- given, is not locked and is not under RO. A lock may only write the column `locked` of the rows
-- of its names. This holds for any queue, archive and camera.
pub ask-Changes :
    {W C : Type 0} (h : Host W) (cam : Dashcam C) (base_url : Text) (now : ℕ) (r : Request)
    (s : Store W) (camera : C) (t : Table)
    → Rows (Changes t r) t (ask h cam base_url now r s camera t)
unfolding ask
ask-Changes h cam base_url now (of_queue c) s camera t = perform-Moves now c t
ask-Changes h cam base_url now (delete_local names force) s camera t =
    delete_clips-Changes h names force s t
ask-Changes h cam base_url now (delete_remote names) s camera t =
    delete_from_camera-Changes cam base_url names t camera
ask-Changes h cam base_url now (lock names locked) s camera t =
    unfold set_locked in
    update-Rows (Changes t (lock names locked)) (named names) (λ r. record r { locked = locked })
      (λ r. inl refl) (λ r e. inr (e, refl)) t
