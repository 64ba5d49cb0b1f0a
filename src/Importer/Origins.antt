-- ===== src/Importer/Origins.antt =====
-- web/services/importer.py and web/services/scanner.py: what an import writes into the queue.
use mathlib.Core.Option.{some-injective}
use mathlib.Core.Path.{subst}
use viofosync.Prelude.{
  ℕ, ◌≡◌, refl, Bool, true, false, List, [], ◌∷◌, ◌++◌, Option, none, some, map, if◌then◌else◌, any,
  All, Bool-cases, inl, inr, arith,
}
use viofosync.Prelude.Text.{Text, codes, text_eq, text_eq_refl, upper, has_prefix, has_infix}
use viofosync.FileName.{Match}
use viofosync.Importer.Ingest.{Origin, has_filename, record_origin}
use viofosync.Grouping.{DateTime, number, checked_datetime}
use viofosync.Scanner.{camera_field, event_type_for}
use viofosync.Importer.{
  ScanItem, is_ro_path, classify_event_type, scan_item_from_match, origin_source_dir,
}

-- The folder that an import writes for the clip has the scanner read the clip's type again.
classified :
    (camera : Text) (ro parks : Bool)
    → has_prefix (codes "P") (map upper camera) ≡ parks
    → let type = if ro then codes "ro" else if parks then codes "parking" else codes "normal" in
      event_type_for camera
        (if text_eq type (codes "ro") then codes "/import/RO/" else codes "/import/")
      ≡ type
unfolding event_type_for text_eq has_infix has_prefix upper
classified camera true parks e = refl
classified camera false true e = rw e refl
classified camera false false e = rw e refl

type-origin :
    (camera rel : Text)
    → event_type_for camera (
        if text_eq (classify_event_type camera rel) (codes "ro")
        then codes "/import/RO/"
        else codes "/import/")
      ≡ classify_event_type camera rel
unfolding classify_event_type
type-origin camera rel =
    classified camera (is_ro_path rel) (has_prefix (codes "P") (map upper camera)) refl

item-origin :
    (camera rel : Text) (item : ScanItem)
    → item.event_type ≡ classify_event_type camera rel
    → event_type_for camera (origin_source_dir item) ≡ item.event_type
unfolding origin_source_dir
item-origin camera rel item e = rw e (type-origin camera rel)

event_type_for-origin_source_dir :
    (stamp : DateTime → ℕ) (m : Match) (name rel : Text) (size : ℕ) (src : Text) (item : ScanItem)
    → scan_item_from_match stamp m name rel size src ≡ some item
    → event_type_for (camera_field m.camera) (origin_source_dir item) ≡ item.event_type
unfolding scan_item_from_match
event_type_for-origin_source_dir stamp m name rel size src item e = of_date (checked_datetime m) e
  where
    of_date :
        (d : Option DateTime)
        → (elim d [
          | none ↦ none
          | some ts ↦ some (record {
            src_path = src;
            source_rel_path = rel;
            basename = name;
            timestamp = stamp ts;
            camera = map upper (camera_field m.camera);
            sequence = number m.sequence;
            event_type = classify_event_type (camera_field m.camera) rel;
            size_bytes = size;
          })
        ])
          ≡ some item
        → event_type_for (camera_field m.camera) (origin_source_dir item) ≡ item.event_type
    of_date none h = cc
    of_date (some ts) h =
        subst
          (λ (i : ScanItem).
            event_type_for (camera_field m.camera) (origin_source_dir i) ≡ i.event_type)
          (some-injective _ _ h)
          (item-origin (camera_field m.camera) rel
            (record {
              src_path = src;
              source_rel_path = rel;
              basename = name;
              timestamp = stamp ts;
              camera = map upper (camera_field m.camera);
              sequence = number m.sequence;
              event_type = classify_event_type (camera_field m.camera) rel;
              size_bytes = size;
            })
            refl)

absent-All :
    (P : Origin → Type 0) (name : Text) (t : List Origin)
    → any (has_filename name) t ≡ false
    → All (λ r. has_filename name r ≡ true → P r) t
absent-All P name [] h = tt
absent-All P name (r ∷ t) h = elim (Bool-cases (has_filename name r)) [
  | inl e ↦ absurd (ground arith)
  | inr e ↦ ((λ e'. absurd cc), absent-All P name t (ground arith))
]

append-All :
    (P : Origin → Type 0) (x : Origin) (t : List Origin) → All P t → P x → All P (t ++ x ∷ [])
append-All P x [] h p = (p, tt)
append-All P x (y ∷ t) (h, hs) p = (h, append-All P x t hs p)

any-last :
    (p : Origin → Bool) (x : Origin) (t : List Origin) → p x ≡ true → any p (t ++ x ∷ []) ≡ true
any-last p x [] e = rw e refl
any-last p x (y ∷ t) e = ground (arith, any-last p x t e)

-- For a clip whose name holds a date and that the queue does not have: the import leaves a row of
-- its name in the queue, and for each such row the scanner's `event_type_for`, given the folder that
-- the row has, finds the event type that the row has, which is the one the import gave the clip.
pub record_origin-event_type_for :
    (stamp : DateTime → ℕ) (m : Match) (name rel : Text) (size : ℕ) (src : Text) (item : ScanItem)
    (now : ℕ) (t : List Origin)
    → scan_item_from_match stamp m name rel size src ≡ some item
    → any (has_filename item.basename) t ≡ false
    → (any (has_filename item.basename) (record_origin now item t) ≡ true)
      × All
          (λ r.
            has_filename item.basename r ≡ true
            → (event_type_for (camera_field m.camera) r.source_dir ≡ r.event_type)
              × (r.event_type ≡ item.event_type))
          (record_origin now item t)
unfolding record_origin text_eq
record_origin-event_type_for stamp m name rel size src item now t e new =
    let reads = event_type_for-origin_source_dir stamp m name rel size src item e in
    rw new (
      any-last (has_filename item.basename) _ t (text_eq_refl item.basename),
      append-All _ _ t (absent-All _ item.basename t new) (λ h. (reads, refl)),
    )
