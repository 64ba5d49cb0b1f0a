-- ===== src/Sync/Removal.antt =====
-- web/services/sync_worker.py: when a download is deleted from the camera.
use viofosync.Prelude.{
  ℕ, ◌≡◌, refl, Bool, true, false, not, ◌&&◌, Option, none, some, ◌==◌, ==_refl, if◌then◌else◌,
  Bool-cases, inl, inr,
}
use viofosync.Prelude.Text.{Text}
use viofosync.Queue.Row.{Row, ro_path}
use viofosync.Deletion.{
  Dashcam, delete_url, delete_dashcam_file, should_delete_after_download, maybe_delete_from_dashcam,
  refresh_queue_size, refresh_size, asked,
}
use viofosync.Sync.{Worker, after_transfer}

-- The downloaded file is there, and is not empty.
abbrev pub has_content : Option ℕ → Bool
has_content none = false
has_content (some n) = not (n == 0)

asked_camera :
    {C : Type 0} (cam : Dashcam C) (base_url : Text) (item : Row) (r : Bool × C)
    → (asked cam base_url item r).1 ≡ r.1
asked_camera cam base_url item (true, c) = refl
asked_camera cam base_url item (false, c) = refl

-- After a transfer, exactly one request reaches the camera, the delete of this clip, when the
-- setting is on, the clip is not under RO, and the local file is there and not empty; otherwise none
-- does. The size that the camera listed has no part in it: the row's was just set to the local one.
pub after_transfer_camera :
    {C : Type 0} (cam : Dashcam C) (base_url : Text) (delete_after_download : Bool)
    (max_attempts : ℕ) (item : Row) (file : Option ℕ) (s : Worker C)
    → (after_transfer cam base_url delete_after_download max_attempts item file s).camera ≡ (
        if delete_after_download && not (ro_path item.source_dir) && has_content file
        then (cam.get s.camera (delete_url base_url item.source_dir item.filename)).1
        else s.camera)
unfolding after_transfer maybe_delete_from_dashcam should_delete_after_download refresh_queue_size
    delete_dashcam_file
after_transfer_camera cam base_url false max_attempts item none s = refl
after_transfer_camera cam base_url false max_attempts item (some n) s = refl
after_transfer_camera cam base_url true max_attempts item none s =
    elim (Bool-cases (ro_path item.source_dir)) [ inl ro ↦ rw ro refl | inr other ↦ rw other refl ]
after_transfer_camera cam base_url true max_attempts item (some n) s =
    elim (Bool-cases (ro_path item.source_dir)) [
      | inl ro ↦ rw ro refl
      | inr other ↦ elim (Bool-cases (n == 0)) [
        | inl empty ↦ rw (other, empty) refl
        | inr full ↦
            rw (other, full, ==_refl n)
              (asked_camera cam base_url (refresh_size (some n) item)
                (delete_dashcam_file cam base_url item.source_dir item.filename s.camera))
      ]
    ]
