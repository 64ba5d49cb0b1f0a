-- ===== src/Deletion/Remote.antt =====
-- What is never deleted from the camera.
use mathlib.Core.List.{Memᴰ}
use viofosync.Prelude.{
  ℕ, ◌+◌, ◌≡◌, refl, Bool, true, false, ◌||◌, List, [], ◌∷◌, arith, select, count, length,
  Bool-cases, inl, inr, length-select,
}
use viofosync.Prelude.Text.{Text}
use viofosync.Queue.Table.{mem_of_mem-select}
use viofosync.Queue.Row.{Row, Table, named, ro_path}
use viofosync.Deletion.{
  Dashcam, delete_url, delete_dashcam_file, Deletes, no_deletes, is_kept, note_answer, delete_row,
  delete_rows, delete_from_camera,
}

module _ {C : Type 0} (cam : Dashcam C) (base_url : Text) (I : C → Type 0) where
  -- A request for a row of the queue that is neither locked nor under RO does no harm to `I`.
  abbrev pub Harmless : Table → Type 0
  Harmless t =
      (r : Row)
      → Memᴰ r t
      → (r.locked || ro_path r.source_dir) ≡ false
      → (c : C) → I c
      → I (cam.get c (delete_url base_url r.source_dir r.filename)).1

  noted : (r : Row) (d : Deletes) (a : Bool × C) → I a.1 → I (note_answer cam base_url r d a).1
  noted r d (true, c) i = i
  noted r d (false, c) i = i

  row_harmless :
      (t : Table) (r : Row) (x : Deletes × C)
      → Harmless t
      → Memᴰ r t
      → I x.1
      → I (delete_row cam base_url r x).1
  unfolding delete_row delete_dashcam_file
  row_harmless t r (d, c) safe m i = elim (Bool-cases (is_kept r)) [
    | inl e ↦ rw e i
    | inr e ↦ rw e (noted r d _ (safe r m (unfold is_kept in e) c i))
  ]

  rows_harmless :
      (t rows : Table) (x : Deletes × C)
      → Harmless t
      → ((r : Row) → Memᴰ r rows → Memᴰ r t)
      → I x.1
      → I (delete_rows cam base_url rows x).1
  unfolding delete_rows
  rows_harmless t [] x safe sub i = i
  rows_harmless t (r ∷ rows) x safe sub i =
      rows_harmless t rows (delete_row cam base_url r x) safe (λ s m. sub s (Memᴰ.tail m))
        (row_harmless t r x safe (sub r (Memᴰ.head refl)) i)

  -- `delete_from_camera` asks for the deletion of no clip that is locked or lies under RO: whatever
  -- the requests for the other clips of the queue leave intact on the camera is intact afterwards,
  -- for any camera, any answers and any selection of names.
  pub delete_from_camera_harmless :
      (names : List Text) (t : Table) (c : C)
      → Harmless t
      → I c
      → I (delete_from_camera cam base_url names t c).2
  unfolding delete_from_camera
  delete_from_camera_harmless [] t c safe i = i
  delete_from_camera_harmless (n ∷ names) t c safe i =
      rows_harmless t (select (named (n ∷ names)) t) (no_deletes, c) safe
        (λ r m. (mem_of_mem-select (named (n ∷ names)) t m).0) i

module _ {C : Type 0} (cam : Dashcam C) (base_url : Text) where
  abbrev total : Deletes → ℕ
  total d = d.deleted + d.skipped + d.errors

  noted_total :
      (r : Row) (d : Deletes) (a : Bool × C)
      → total (note_answer cam base_url r d a).0 ≡ total d + 1
  noted_total r d (true, c) = omega arith
  noted_total r d (false, c) = omega arith

  row_total : (r : Row) (x : Deletes × C) → total (delete_row cam base_url r x).0 ≡ total x.0 + 1
  unfolding delete_row
  row_total r (d, c) = elim (Bool-cases (is_kept r)) [
    | inl e ↦ rw e (omega arith)
    | inr e ↦ rw e (noted_total r d (delete_dashcam_file cam base_url r.source_dir r.filename c))
  ]

  rows_total :
      (rows : Table) (x : Deletes × C)
      → total (delete_rows cam base_url rows x).0 ≡ total x.0 + length rows
  unfolding delete_rows
  rows_total [] x = omega arith
  rows_total (r ∷ rows) x =
      omega (arith, row_total r x, rows_total rows (delete_row cam base_url r x))

  -- Every selected row of the queue is counted once, as deleted, skipped or an error.
  pub delete_from_camera_total :
      (name : Text) (names : List Text) (t : Table) (c : C)
      → let d = (delete_from_camera cam base_url (name ∷ names) t c).1 in
        d.deleted + d.skipped + d.errors ≡ count (named (name ∷ names)) t
  unfolding delete_from_camera
  delete_from_camera_total name names t c = omega (
    arith,
    rows_total (select (named (name ∷ names)) t) (no_deletes, c),
    length-select (named (name ∷ names)) t,
  )
