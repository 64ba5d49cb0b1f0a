-- ===== src/Importer/Safe.antt =====
-- web/services/importer.py: an import does not lose the clip.
use viofosync.Prelude.{
  ℕ, ◌≡◌, refl, ◌∙◌, ◌⊎◌, Bool, true, false, ◌&&◌, List, Option, none, some, ◌==◌, is_some, inl,
  inr, Bool-cases,
}
use viofosync.Prelude.Text.{Text, text_eq, text_eq_refl}
use viofosync.Grouping.{join_path}
use viofosync.Importer.{Status, imported, already_present, over_quota_older, error, ScanItem}
use viofosync.Importer.Ingest.{
  Files, write_file, replace_file, Snap, dest_for, staging_of, has_complete_copy, Origin, Copy,
  copies, breaks_off, Calls, Ingested, drop_if, give_up, place_clip, of_copied, copy_clip,
  move_clip, stage_clip, with_room, ingest_clip,
}

replace_file_target : {A : Type 0} (a b : Text) (f : Files A) → replace_file a b f b ≡ f a
replace_file_target a b f = rw (text_eq_refl b) refl

write_file_self : {A : Type 0} (p : Text) (a : Option A) (f : Files A) → write_file p a f p ≡ a
write_file_self p a f = rw (text_eq_refl p) refl

module _ {A : Type 0} (size : A → ℕ) (now : ℕ) (snap : Snap) (o : Calls A) (item : ScanItem)
    (a : A) where
  abbrev staged_path : Text
  staged_path = join_path (staging_of snap) item.basename

  abbrev dest : Text
  dest = dest_for snap item

  -- Where the clip's content is, by the status and by what could not be undone.
  abbrev pub Found : (cross_volume : Bool) → Ingested A → Type 0
  Found cross r =
      (r.0 ≡ some imported → r.1 dest ≡ some a)
      × (r.0 ≡ some already_present → has_complete_copy size r.1 dest item.size_bytes ≡ true)
      × (cross ≡ true → r.1 item.src_path ≡ some a)
      × ((r.0 ≡ some imported → ⊥) → o.restores ≡ true → r.1 item.src_path ≡ some a)
      × ((r.1 item.src_path ≡ some a) ⊎ ((r.1 staged_path ≡ some a) ⊎ (r.1 dest ≡ some a)))

  -- A status that is no import, where the source is as it was.
  untouched :
      (cross : Bool) (status : Option Status) (f : Files A) (t : List Origin)
      → (status ≡ some imported → ⊥)
      → (status ≡ some already_present → has_complete_copy size f dest item.size_bytes ≡ true)
      → f item.src_path ≡ some a
      → Found cross (status, f, t)
  untouched cross status f t other present h =
      ((λ e. absurd (other e)), present, (λ e. h), (λ e r. h), inl h)

  module _ (src_dest : text_eq item.src_path dest ≡ false)
      (gps : (f : Files A)
        → (o.extract_gps f dest ≡ f dest) × (o.extract_gps f item.src_path ≡ f item.src_path)) where
    place-copied :
        (f : Files A) (t : List Origin)
        → text_eq item.src_path staged_path ≡ false
        → f staged_path ≡ some a
        → f item.src_path ≡ some a
        → Found true (place_clip size now snap o item false staged_path f t)
    unfolding place_clip
    place-copied f t apart at_tmp at_src =
        elim (Bool-cases (o.makes_folder && o.places && is_some (f staged_path))) [
          | inl e ↦ rw e (
            (λ i.
                (gps (replace_file staged_path dest f)).0
                ∙ replace_file_target staged_path dest f
                ∙ at_tmp),
            (λ i. cc),
            (λ c. still),
            (λ n r. still),
            inl still,
          )
          | inr e ↦ rw e (
              untouched true (some error) (drop_if size now snap o item o.removes staged_path f) t
                (λ i. cc) (λ i. cc) (dropped o.removes))
        ]
      where
        still : o.extract_gps (replace_file staged_path dest f) item.src_path ≡ some a
        still = (gps (replace_file staged_path dest f)).1 ∙ (rw (src_dest, apart) at_src)

        dropped : (b : Bool) → drop_if size now snap o item b staged_path f item.src_path ≡ some a
        dropped true = rw apart at_src
        dropped false = at_src

    place-moved :
        (f : Files A) (t : List Origin)
        → f staged_path ≡ some a
        → Found false (place_clip size now snap o item true staged_path f t)
    unfolding place_clip
    place-moved f t at_tmp =
        elim (Bool-cases (o.makes_folder && o.places && is_some (f staged_path))) [
          | inl e ↦
              rw e
                ((λ i. at_dest), (λ i. cc), (λ c. cc), (λ n r. absurd (n refl)), inr (inr at_dest))
          | inr e ↦ rw e (given_up (Bool-cases (o.restores && is_some (f staged_path))))
        ]
      where
        at_dest : o.extract_gps (replace_file staged_path dest f) dest ≡ some a
        at_dest =
            (gps (replace_file staged_path dest f)).0
            ∙ replace_file_target staged_path dest f
            ∙ at_tmp

        given_up :
            ((o.restores && is_some (f staged_path)) ≡ true)
              ⊎ ((o.restores && is_some (f staged_path)) ≡ false)
            → Found false (give_up size now snap o item true staged_path f t)
        given_up (inl b) = rw b (
            untouched false (some error) (replace_file staged_path item.src_path f) t (λ i. cc)
              (λ i. cc) (replace_file_target staged_path item.src_path f ∙ at_tmp))
        given_up (inr b) = rw b (
          (λ i. cc),
          (λ i. cc),
          (λ c. cc),
          (λ n r. absurd (let t' : is_some (f staged_path) ≡ true = rw at_tmp refl in cc)),
          inr (inl at_tmp),
        )

    copy-Found :
        (c : Copy A) (f : Files A) (t : List Origin)
        → text_eq item.src_path staged_path ≡ false
        → f item.src_path ≡ some a
        → Found true (copy_clip size now snap o item c staged_path f t)
    copy-Found (breaks_off left) f t apart at_src =
        untouched true (some error) (write_file staged_path left f) t (λ i. cc) (λ i. cc)
          (rw apart at_src)
    copy-Found copies f t apart at_src =
        rw at_src (of_size (Bool-cases (size a == item.size_bytes)))
      where
        put : Files A
        put = write_file staged_path (some a) f

        of_size :
            ((size a == item.size_bytes) ≡ true) ⊎ ((size a == item.size_bytes) ≡ false)
            → Found true (of_copied size now snap o item staged_path f t (some a))
        of_size (inl e) =
            rw e
              (place-copied put t apart (write_file_self staged_path (some a) f) (rw apart at_src))
        of_size (inr e) = rw e (
            untouched true (some error) (drop_if size now snap o item o.removes staged_path put) t
              (λ i. cc) (λ i. cc) (dropped o.removes))
          where
            dropped :
                (b : Bool) → drop_if size now snap o item b staged_path put item.src_path ≡ some a
            dropped true = rw apart at_src
            dropped false = rw apart at_src

    move-Found :
        (f : Files A) (t : List Origin)
        → f item.src_path ≡ some a
        → Found false (move_clip size now snap o item staged_path f t)
    move-Found f t at_src = elim (Bool-cases (o.moves && is_some (f item.src_path))) [
      | inl e ↦ rw e (
          place-moved (replace_file item.src_path staged_path f) t
            (replace_file_target item.src_path staged_path f ∙ at_src))
      | inr e ↦ rw e (untouched false (some error) f t (λ i. cc) (λ i. cc) at_src)
    ]

    module _ (room : (f : Files A) → (o.room f).1 item.src_path ≡ f item.src_path) where
      stage-Found :
          (cross : Bool) (f : Files A) (t : List Origin)
          → (cross ≡ true → text_eq item.src_path staged_path ≡ false)
          → f item.src_path ≡ some a
          → Found cross (stage_clip size now snap o item cross staged_path f t)
      unfolding stage_clip
      stage-Found true f t apart at_src = copy-Found o.copy f t (apart refl) at_src
      stage-Found false f t apart at_src = move-Found f t at_src

      roomed :
          (cross : Bool) (r : Bool × Files A) (t : List Origin)
          → (cross ≡ true → text_eq item.src_path staged_path ≡ false)
          → r.1 item.src_path ≡ some a
          → Found cross (with_room size now snap o item cross r t)
      unfolding with_room
      roomed cross (false, f) t apart at_src =
          untouched cross (some over_quota_older) f t (λ i. cc) (λ i. cc) at_src
      roomed cross (true, f) t apart at_src = elim (Bool-cases o.makes_staging) [
        | inl e ↦ rw e (stage-Found cross f t apart at_src)
        | inr e ↦ rw e (untouched cross none f t (λ i. cc) (λ i. cc) at_src)
      ]

      -- Whatever calls on the file system fail, an import from a folder does not lose the clip: after
      -- it the clip's content is at the source, in the staging folder or in the archive; it is in the
      -- archive if the status says imported; a copy as large as expected is there if the status says
      -- already present; from another volume the source is untouched; and if the
      -- clip was not imported, the source is there as before, unless moving it back failed. The
      -- conditions are that the source is not the destination, nor, from another volume, the staged
      -- file, and that making room and the GPS extraction leave the source and the new file alone.
      pub ingest_clip-Found :
          (cross : Bool) (f : Files A) (t : List Origin)
          → (cross ≡ true → text_eq item.src_path staged_path ≡ false)
          → f item.src_path ≡ some a
          → Found cross (ingest_clip size now snap o item cross false f t)
      unfolding ingest_clip
      ingest_clip-Found cross f t apart at_src =
          elim (Bool-cases (has_complete_copy size f dest item.size_bytes)) [
            | inl e ↦ rw e (untouched cross (some already_present) f t (λ i. cc) (λ i. e) at_src)
            | inr e ↦ rw e (roomed cross (o.room f) t apart (room f ∙ at_src))
          ]
