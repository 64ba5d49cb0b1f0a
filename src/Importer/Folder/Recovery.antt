-- ===== src/Importer/Folder/Recovery.antt =====
-- web/services/importer.py: the recovery of the staging folder keeps what it cannot place, and the
-- origin of an import says what a scan reads from it.
use viofosync.Prelude.{
  ℕ, ◌≤◌, ◌≡◌, refl, ◌∙◌, ◌⊎◌, Bool, true, false, List, Option, none, some, arith, ◌==◌, leb,
  leb→le, if◌then◌else◌, inl, inr, Bool-cases,
}
use viofosync.Prelude.Text.{Text, text_eq, text_eq_sym}
use viofosync.Grouping.{join_path}
use viofosync.Importer.{Status, imported, already_present, over_quota_older, error, ScanItem}
use viofosync.Importer.Ingest.{
  Files, Snap, dest_for, staging_of, has_complete_copy, Origin, Calls, Ingested, ingest_clip,
}
use viofosync.Importer.Safe.{Found, ingest_clip-Found}
use viofosync.Importer.Folder.{recovered, recover_item}

module _ {A : Type 0} (size : A → ℕ) (now : ℕ) (snap : Snap) (outcome : ScanItem → Calls A)
    (item : ScanItem) (a : A) where
  abbrev dest : Text
  dest = dest_for snap item

  -- The content is still staged or in the archive, or another one in its place is as large.
  abbrev pub IsRecovered : Ingested A → Type 0
  IsRecovered r =
      (r.1 item.src_path ≡ some a)
      ⊎ ((r.1 dest ≡ some a)
          ⊎ ((b : A) × (r.1 dest ≡ some b) × ((item.size_bytes ≡ 0) ⊎ (item.size_bytes ≤ size b))))

  complete :
      (f : Files A)
      → has_complete_copy size f dest item.size_bytes ≡ true
      → (b : A) × (f dest ≡ some b) × ((item.size_bytes ≡ 0) ⊎ (item.size_bytes ≤ size b))
  unfolding has_complete_copy
  complete f h = of_content (f dest) refl h
    where
      of_content :
          (c : Option A)
          → f dest ≡ c
          → (elim c [
            | none ↦ false
            | some b ↦ if item.size_bytes == 0 then true else leb item.size_bytes (size b)
          ])
            ≡ true
          → (b : A) × (f dest ≡ some b) × ((item.size_bytes ≡ 0) ⊎ (item.size_bytes ≤ size b))
      of_content none e h = cc
      of_content (some b) e h = elim (Bool-cases (item.size_bytes == 0)) [
        | inl z ↦ (b, e, inl (ground arith))
        | inr n ↦ (b, e, inr (leb→le item.size_bytes (size b) (rw n at h)))
      ]

  -- What an import found is there after it.
  found :
      (status : Option Status) (f : Files A) (t : List Origin)
      → item.src_path ≡ join_path (staging_of snap) item.basename
      → Found size now snap (outcome item) item a false (status, f, t)
      → IsRecovered (status, f, t)
  found status f t same (i, p, c, n, at) = of_place at
    where
      of_place :
          (f item.src_path ≡ some a)
            ⊎ ((f (join_path (staging_of snap) item.basename) ≡ some a) ⊎ (f dest ≡ some a))
          → IsRecovered (status, f, t)
      of_place (inl h) = inl h
      of_place (inr (inl h)) = inl (rw same h)
      of_place (inr (inr h)) = inr (inl h)

  recovered-IsRecovered :
      (removes : Bool) (r : Ingested A)
      → item.src_path ≡ join_path (staging_of snap) item.basename
      → text_eq dest item.src_path ≡ false
      → Found size now snap (outcome item) item a false r
      → IsRecovered (recovered size now snap outcome removes item r)
  recovered-IsRecovered true (some already_present, f, t) same apart (i, p, c, n, at) =
      let (b, e, l) = complete f (p refl) in inr (inr (b, (rw apart e), l))
  recovered-IsRecovered true (some imported, f, t) same apart h = found (some imported) f t same h
  recovered-IsRecovered true (some over_quota_older, f, t) same apart h =
      found (some over_quota_older) f t same h
  recovered-IsRecovered true (some error, f, t) same apart h = found (some error) f t same h
  recovered-IsRecovered true (none, f, t) same apart h = found none f t same h
  recovered-IsRecovered false (status, f, t) same apart h = found status f t same h

  -- Whatever calls on the file system fail, the recovery of a staged clip does not lose it: its
  -- content is still staged, or it is in the archive, or the archive has a copy under its name that
  -- is as large (or any copy, if the staged file is empty). The conditions are that the staged file
  -- is not its destination, and that making room and the GPS extraction leave both alone.
  pub recover_item-IsRecovered :
      (f : Files A) (t : List Origin)
      → item.src_path ≡ join_path (staging_of snap) item.basename
      → text_eq item.src_path dest ≡ false
      → ((f : Files A)
          → ((outcome item).extract_gps f dest ≡ f dest)
            × ((outcome item).extract_gps f item.src_path ≡ f item.src_path))
      → ((f : Files A) → ((outcome item).room f).1 item.src_path ≡ f item.src_path)
      → f item.src_path ≡ some a
      → IsRecovered (recover_item size now snap outcome item f t)
  unfolding recover_item
  recover_item-IsRecovered f t same apart gps room staged =
      recovered-IsRecovered (outcome item).removes
        (ingest_clip size now snap (outcome item) item false false f t) same
        (text_eq_sym dest item.src_path ∙ apart)
        (ingest_clip-Found size now snap (outcome item) item a apart gps room false f t (λ c. cc)
          staged)
