-- ===== src/Importer/Folder/Newest.antt =====
-- web/services/importer.py: the manifest of a folder.
use mathlib.Core.List.{Memᴰ}
use mathlib.Core.Option.{some-injective}
use mathlib.Core.Path.{subst}
use viofosync.Prelude.{
  ℕ, suc, ◌+◌, ◌≤◌, ◌≡◌, ◌⊎◌, refl, sym, ◌∙◌, List, [], ◌∷◌, Option, none, some, arith, leb, leb→le,
  length, All, All-imp, Bool-cases, inl, inr,
}
use viofosync.FileName.{Match, parse}
use viofosync.Grouping.{DateTime}
use viofosync.Importer.{ScanItem, scan_item_from_match}
use viofosync.Importer.Folder.{
  Walked, Manifest, SkippedFor, not_recognised, bad_timestamp, skip_file, take_file, insert_item,
  of_item, of_name, size_or_zero, scan_source,
}

abbrev Older : ScanItem → ScanItem → Type 0
Older i j = j.timestamp ≤ i.timestamp

abbrev pub IsNewestFirst : List ScanItem → Type 0
IsNewestFirst [] = Unit
IsNewestFirst (i ∷ items) = All (Older i) items × IsNewestFirst items

insert_item-Older :
    (k i : ScanItem) (items : List ScanItem)
    → Older k i
    → All (Older k) items
    → All (Older k) (insert_item i items)
insert_item-Older k i [] h hs = (h, tt)
insert_item-Older k i (j ∷ items) h (o, hs) = elim (Bool-cases (leb j.timestamp i.timestamp)) [
  | inl e ↦ rw e (h, (o, hs))
  | inr e ↦ rw e (o, insert_item-Older k i items h hs)
]

insert_item-IsNewestFirst :
    (i : ScanItem) (items : List ScanItem)
    → IsNewestFirst items
    → IsNewestFirst (insert_item i items)
insert_item-IsNewestFirst i [] h = (tt, tt)
insert_item-IsNewestFirst i (j ∷ items) (o, h) = elim (Bool-cases (leb j.timestamp i.timestamp)) [
  | inl e ↦
      let below = leb→le j.timestamp i.timestamp e in
      rw e ((below, All-imp items (λ k l. omega (arith, l, below)) o), (o, h))
  | inr e ↦ rw e (insert_item-Older j i items (ground arith) o, insert_item-IsNewestFirst i items h)
]

length-insert_item :
    (i : ScanItem) (items : List ScanItem) → length (insert_item i items) ≡ suc (length items)
length-insert_item i [] = refl
length-insert_item i (j ∷ items) = let ih = length-insert_item i items in ground arith

-- The clip that a file is read as: its name parses, and holds a date.
abbrev pub ReadsAs : (DateTime → ℕ) → Walked → ScanItem → Type 0
ReadsAs stamp w i =
    (m : Match) × (parse w.name ≡ some m)
    × (scan_item_from_match stamp m w.name w.rel (size_or_zero w.size) w.full ≡ some i)

-- The file is among the clips, or it is among the skipped and is read as none.
abbrev pub IsListed : (DateTime → ℕ) → Manifest → Walked → Type 0
IsListed stamp man w =
    ((i : ScanItem) × ReadsAs stamp w i × Memᴰ i man.items)
    ⊎ (((i : ScanItem) → ReadsAs stamp w i → ⊥)
        × ((reason : SkippedFor) × Memᴰ (w.name, reason) man.skipped))

-- The clip is one that a file is read as.
abbrev pub IsFound : (DateTime → ℕ) → List Walked → ScanItem → Type 0
IsFound stamp files i = (w : Walked) × Memᴰ w files × ReadsAs stamp w i

abbrev IsManifest : (DateTime → ℕ) → List Walked → Manifest → Type 0
IsManifest stamp files man =
    IsNewestFirst man.items
    × All (IsListed stamp man) files
    × All (IsFound stamp files) man.items
    × (length man.items + length man.skipped ≡ length files)

insert_item-All :
    (P : ScanItem → Type 0) (i : ScanItem) (items : List ScanItem)
    → P i
    → All P items
    → All P (insert_item i items)
insert_item-All P i [] h hs = (h, tt)
insert_item-All P i (j ∷ items) h (k, hs) = elim (Bool-cases (leb j.timestamp i.timestamp)) [
  | inl e ↦ rw e (h, (k, hs))
  | inr e ↦ rw e (k, insert_item-All P i items h hs)
]

mem-insert_item : (i : ScanItem) (items : List ScanItem) → Memᴰ i (insert_item i items)
mem-insert_item i [] = Memᴰ.head refl
mem-insert_item i (j ∷ items) = elim (Bool-cases (leb j.timestamp i.timestamp)) [
  | inl e ↦ rw e (Memᴰ.head refl)
  | inr e ↦ rw e (Memᴰ.tail (mem-insert_item i items))
]

insert_item-keeps :
    (i k : ScanItem) (items : List ScanItem) → Memᴰ k items → Memᴰ k (insert_item i items)
insert_item-keeps i k [] m = elim m [ ]
insert_item-keeps i k (j ∷ items) (Memᴰ.head e) = elim (Bool-cases (leb j.timestamp i.timestamp)) [
  | inl c ↦ rw c (Memᴰ.tail (Memᴰ.head e))
  | inr c ↦ rw c (Memᴰ.head e)
]
insert_item-keeps i k (j ∷ items) (Memᴰ.tail m) = elim (Bool-cases (leb j.timestamp i.timestamp)) [
  | inl c ↦ rw c (Memᴰ.tail (Memᴰ.tail m))
  | inr c ↦ rw c (Memᴰ.tail (insert_item-keeps i k items m))
]

-- A file that is skipped.
skip_file-IsManifest :
    (stamp : DateTime → ℕ) (w : Walked) (reason : SkippedFor) (files : List Walked) (man : Manifest)
    → ((i : ScanItem) → ReadsAs stamp w i → ⊥)
    → IsManifest stamp files man
    → IsManifest stamp (w ∷ files) (skip_file w.name reason man)
skip_file-IsManifest stamp w reason files man unread (h, listed, found, n) = (
  h,
  (
    inr (unread, (reason, Memᴰ.head refl)),
    All-imp files
        (λ v l. elim l [
          | inl here ↦ inl here
          | inr (no_item, (why, m)) ↦ inr (no_item, (why, Memᴰ.tail m))
        ])
        listed,
  ),
  All-imp man.items (λ i (v, m, r). (v, Memᴰ.tail m, r)) found,
  omega arith,
)

-- A file that is taken.
take_file-IsManifest :
    (stamp : DateTime → ℕ) (w : Walked) (i : ScanItem) (files : List Walked) (man : Manifest)
    → ReadsAs stamp w i
    → IsManifest stamp files man
    → IsManifest stamp (w ∷ files) (take_file i (size_or_zero w.size) man)
take_file-IsManifest stamp w i files man reads (h, listed, found, n) = (
  insert_item-IsNewestFirst i man.items h,
  (
    inl (i, reads, mem-insert_item i man.items),
    All-imp files
        (λ v l. elim l [
          | inl (k, r, m) ↦ inl (k, r, insert_item-keeps i k man.items m)
          | inr skipped ↦ inr skipped
        ])
        listed,
  ),
  insert_item-All (IsFound stamp (w ∷ files)) i man.items (w, Memᴰ.head refl, reads)
      (All-imp man.items (λ k (v, m, r). (v, Memᴰ.tail m, r)) found),
  omega (arith, length-insert_item i man.items, n),
)

of_item-IsManifest :
    (stamp : DateTime → ℕ) (w : Walked) (files : List Walked) (man : Manifest) (m : Match)
    (o : Option ScanItem)
    → parse w.name ≡ some m
    → scan_item_from_match stamp m w.name w.rel (size_or_zero w.size) w.full ≡ o
    → IsManifest stamp files man
    → IsManifest stamp (w ∷ files) (of_item w man o)
of_item-IsManifest stamp w files man m none p e h =
    skip_file-IsManifest stamp w bad_timestamp files man
      (λ i (m', p', e').
        let same : m ≡ m' = some-injective _ _ (sym p ∙ p') in
        let e2 =
          subst
            (λ (k : Match).
              scan_item_from_match stamp k w.name w.rel (size_or_zero w.size) w.full ≡ none)
            same e in
        absurd cc)
      h
of_item-IsManifest stamp w files man m (some i) p e h =
    take_file-IsManifest stamp w i files man (m, p, e) h

of_name-IsManifest :
    (stamp : DateTime → ℕ) (w : Walked) (files : List Walked) (man : Manifest) (o : Option Match)
    → parse w.name ≡ o
    → IsManifest stamp files man
    → IsManifest stamp (w ∷ files) (of_name stamp w man o)
unfolding of_name
of_name-IsManifest stamp w files man none p h =
    skip_file-IsManifest stamp w not_recognised files man (λ i (m, p', e). absurd cc) h
of_name-IsManifest stamp w files man (some m) p h =
    of_item-IsManifest stamp w files man m _ p refl h

-- The manifest of a folder has its clips newest first. Each file of the walk whose name parses and
-- holds a date is among the clips, as the item that is read from it; each other file is among the
-- skipped; every clip is read from a file of the walk; and clips and skipped are as many as the
-- files.
pub scan_source-IsNewestFirst :
    (stamp : DateTime → ℕ) (files : List Walked)
    → let man = scan_source stamp files in
      IsNewestFirst man.items
      × All (IsListed stamp man) files
      × All (IsFound stamp files) man.items
      × (length man.items + length man.skipped ≡ length files)
unfolding scan_source
scan_source-IsNewestFirst stamp [] = (tt, tt, tt, refl)
scan_source-IsNewestFirst stamp (w ∷ files) =
    of_name-IsManifest stamp w files (scan_source stamp files) (parse w.name) refl
      (scan_source-IsNewestFirst stamp files)
