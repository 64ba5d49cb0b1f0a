-- ===== src/Retention/Evictions.antt =====
-- A pass of retention.py as a series of evictions from the index.
use mathlib.Core.List.{Memᴰ}
use viofosync.Prelude.{
  ℕ, zero, suc, ◌≡◌, refl, Bool, true, false, not, List, [], ◌∷◌, ltb, ◌==◌, select, take, All,
  Bool-cases, inl, inr,
}
use viofosync.Queue.Table.{mem-select, mem_of_mem-select}
use viofosync.Queue.Keys.{Unique, Unique-row}
use viofosync.Retention.{Clip}
use viofosync.Retention.Pressure.{by_age, oldest_first}

abbrev pub UniqueIds : List Clip → Type 0
UniqueIds = Unique (λ (c : Clip). c.id)

-- `DELETE FROM clip_index WHERE id = ?`
abbrev pub without : ℕ → List Clip → List Clip
without i cs = select (λ c. not (c.id == i)) cs

-- The second index is what evictions of rows of `all` that pass `p` leave of the first.
pub data Evictions (p : Clip → Bool) (all : List Clip) : List Clip → List Clip → Type 0 where
  unchanged : {cs : List Clip} → Evictions p all cs cs
  evicted :
      {cs ds : List Clip} (x : Clip)
      → Memᴰ x all
      → p x ≡ true
      → Evictions p all (without x.id cs) ds
      → Evictions p all cs ds

pub Evictions-trans :
    {p : Clip → Bool} {all cs ds es : List Clip}
    → Evictions p all cs ds
    → Evictions p all ds es
    → Evictions p all cs es
Evictions-trans unchanged e = e
Evictions-trans (evicted x m h d) e = evicted x m h (Evictions-trans d e)

pub Evictions-subset :
    {p : Clip → Bool} {all cs ds : List Clip}
    → Evictions p all cs ds
    → {c : Clip} → Memᴰ c ds
    → Memᴰ c cs
Evictions-subset unchanged m = m
Evictions-subset {cs} (evicted x mx h d) m =
    (mem_of_mem-select (λ c. not (c.id == x.id)) cs (Evictions-subset d m)).0

pub Evictions-spare :
    {p : Clip → Bool} {all cs ds : List Clip} {c : Clip}
    → UniqueIds all
    → Memᴰ c all
    → p c ≡ false
    → Evictions p all cs ds
    → Memᴰ c cs
    → Memᴰ c ds
Evictions-spare u ma g unchanged m = m
Evictions-spare {p} {all} {cs} {ds} {c} u ma g (evicted x mx h d) m =
    Evictions-spare u ma g d (mem-select (λ y. not (y.id == x.id)) cs m other)
  where
    other : not (c.id == x.id) ≡ true
    other = elim (Bool-cases (c.id == x.id)) [
      | inl same ↦ absurd (
          let e = Unique-row (λ (y : Clip). y.id) all u mx ma same in
          let e' : (p c ≡ true) = rw (← e) h in cc)
      | inr e ↦ rw e refl
    ]

-- Lists of rows of the index that a pass may evict.
abbrev pub Admitted : (Clip → Bool) → List Clip → List Clip → Type 0
Admitted p all rows = All (λ x. Memᴰ x all × (p x ≡ true)) rows

Admitted-by_age :
    (p : Clip → Bool) (all : List Clip) (c : Clip) (cs : List Clip)
    → Memᴰ c all × (p c ≡ true)
    → Admitted p all cs
    → Admitted p all (by_age c cs)
unfolding by_age
Admitted-by_age p all c [] a h = (a, tt)
Admitted-by_age p all c (d ∷ cs) a (b, h) = elim (Bool-cases (ltb d.timestamp c.timestamp)) [
  | inl e ↦ rw e (b, Admitted-by_age p all c cs a h)
  | inr e ↦ rw e (a, (b, h))
]

pub Admitted-oldest_first :
    (p : Clip → Bool) (all cs : List Clip) → Admitted p all cs → Admitted p all (oldest_first cs)
unfolding oldest_first
Admitted-oldest_first p all [] h = tt
Admitted-oldest_first p all (c ∷ cs) (a, h) =
    Admitted-by_age p all c (oldest_first cs) a (Admitted-oldest_first p all cs h)

pub Admitted-take :
    (p : Clip → Bool) (all : List Clip) (n : ℕ) (cs : List Clip)
    → Admitted p all cs
    → Admitted p all (take n cs)
Admitted-take p all zero cs h = tt
Admitted-take p all (suc n) [] h = tt
Admitted-take p all (suc n) (c ∷ cs) (a, h) = (a, Admitted-take p all n cs h)

pub Admitted-select :
    (p q : Clip → Bool) (all : List Clip)
    → ((x : Clip) → q x ≡ true → p x ≡ true)
    → (cs : List Clip) → ((x : Clip) → Memᴰ x cs → Memᴰ x all)
    → Admitted p all (select q cs)
Admitted-select p q all h [] sub = tt
Admitted-select p q all h (c ∷ cs) sub =
    let rest = Admitted-select p q all h cs (λ x m. sub x (Memᴰ.tail m)) in
    elim (Bool-cases (q c)) [
      | inl e ↦ rw e ((sub c (Memᴰ.head refl), h c e), rest)
      | inr e ↦ rw e rest
    ]
