-- ===== src/DeriveQueue/Scan.antt =====
-- `enqueue_missing` of derive_queue.py: what a scan of the index leaves in the queue.
use mathlib.Core.List.{Memᴰ}
use viofosync.Prelude.{
  ℕ, ◌≡◌, refl, Bool, true, false, ◌&&◌, ◌||◌, List, [], ◌∷◌, ◌++◌, arith, ==_refl, if◌then◌else◌,
  select, any, any_of_mem, All, inl, inr, Bool-cases,
}
use viofosync.Queue.Table.{update, mem-update, mem-select}
use viofosync.DeriveQueue.{
  Job, Jobs, is_pending, is_running, is_done, has_clip, new_job, restart, upsert, upsert_all,
  is_missing, enqueue_missing,
}

-- A row for the clip that has not failed.
abbrev pub live : ℕ → Job → Bool
live i j = has_clip i j && (is_pending j || is_running j || is_done j)

abbrev is_settled : Job → Bool
is_settled j = is_done j || is_running j

module _ {A : Type 0} where
  any-update :
      (p q : A → Bool) (f : A → A) (t : List A)
      → ((x : A) → p x ≡ true → p (f x) ≡ true)
      → any p t ≡ true
      → any p (update q f t) ≡ true
  unfolding update
  any-update p q f [] h e = e
  any-update p q f (x ∷ t) h e = elim (Bool-cases (p x)) [
    | inl here ↦ ground (arith, h x here)
    | inr later ↦ ground (arith, any-update p q f t h)
  ]

  any_of_update :
      (p q : A → Bool) (f : A → A) (t : List A)
      → ((x : A) → q x ≡ true → p (f x) ≡ true)
      → any q t ≡ true
      → any p (update q f t) ≡ true
  unfolding update
  any_of_update p q f [] h e = cc
  any_of_update p q f (x ∷ t) h e = ground (arith, h x, any_of_update p q f t h)

  any-append : (p : A → Bool) (s : List A) (x : A) → any p (s ++ x ∷ []) ≡ (any p s || p x)
  any-append p [] x = ground arith
  any-append p (y ∷ s) x = ground (arith, any-append p s x)

  mem-append : {x : A} (s r : List A) → Memᴰ x s → Memᴰ x (s ++ r)
  mem-append [] r m = elim m [ ]
  mem-append (y ∷ s) r (Memᴰ.head e) = Memᴰ.head e
  mem-append (y ∷ s) r (Memᴰ.tail m) = Memᴰ.tail (mem-append s r m)

restart-live :
    (i priority now : ℕ) (j : Job) → has_clip i j ≡ true → live i (restart priority now j) ≡ true
unfolding restart
restart-live i priority now j h = ground arith

upsert-live :
    (i priority now : ℕ) (k : Job) (t : Jobs)
    → any (live i) t ≡ true
    → any (live i) (upsert (restart priority now) k t) ≡ true
unfolding upsert
upsert-live i priority now k t h = elim (Bool-cases (any (has_clip k.clip_id) t)) [
  | inl known ↦ rw known (
      any-update (live i) (has_clip k.clip_id) (restart priority now) t
        (λ j e. restart-live i priority now j (ground arith)) h)
  | inr fresh ↦ rw (fresh, any-append (live i) t k, h) refl
]

upsert_makes :
    (i priority now : ℕ) (t : Jobs)
    → any (live i) (upsert (restart priority now) (new_job i priority now) t) ≡ true
unfolding upsert new_job
upsert_makes i priority now t = elim (Bool-cases (any (has_clip i) t)) [
  | inl known ↦ rw known (
      any_of_update (live i) (has_clip i) (restart priority now) t (restart-live i priority now)
        known)
  | inr fresh ↦
      rw (fresh, any-append (live i) t (new_job i priority now)) (ground (arith, ==_refl i))
]

upsert_all-live :
    (i priority now : ℕ) (ids : List ℕ) (t : Jobs)
    → any (live i) t ≡ true
    → any (live i) (upsert_all priority now ids t) ≡ true
unfolding upsert_all
upsert_all-live i priority now [] t h = h
upsert_all-live i priority now (k ∷ ids) t h =
    upsert_all-live i priority now ids _ (upsert-live i priority now (new_job k priority now) t h)

upsert_all_makes :
    (i priority now : ℕ) (ids : List ℕ) (t : Jobs)
    → Memᴰ i ids
    → any (live i) (upsert_all priority now ids t) ≡ true
unfolding upsert_all
upsert_all_makes i priority now [] t m = elim m [ ]
upsert_all_makes i priority now (k ∷ ids) t (Memᴰ.head e) =
    rw (← e) (upsert_all-live i priority now ids _ (upsert_makes i priority now t))
upsert_all_makes i priority now (k ∷ ids) t (Memᴰ.tail m) = upsert_all_makes i priority now ids _ m

live_of_settled :
    (i : ℕ) (t : Jobs) → any (λ j. has_clip i j && is_settled j) t ≡ true → any (live i) t ≡ true
live_of_settled i [] h = cc
live_of_settled i (j ∷ t) h = ground (arith, live_of_settled i t)

spared :
    (priority now : ℕ) (x k : Job) (t : Jobs)
    → has_clip k.clip_id x ≡ false
    → Memᴰ x t
    → Memᴰ x (upsert (restart priority now) k t)
unfolding upsert
spared priority now x k t other m = elim (Bool-cases (any (has_clip k.clip_id) t)) [
  | inl known ↦ rw known (kept other (mem-update (has_clip k.clip_id) (restart priority now) m))
  | inr fresh ↦ rw fresh (mem-append t (k ∷ []) m)
]
  where
    kept :
        {l : Jobs}
        → has_clip k.clip_id x ≡ false
        → Memᴰ (if has_clip k.clip_id x then restart priority now x else x) l
        → Memᴰ x l
    kept e = rw e (λ n. n)

spared_all :
    (priority now : ℕ) (x : Job) (ids : List ℕ) (t : Jobs)
    → All (λ i. has_clip i x ≡ false) ids
    → Memᴰ x t
    → Memᴰ x (upsert_all priority now ids t)
unfolding upsert_all new_job
spared_all priority now x [] t h m = m
spared_all priority now x (k ∷ ids) t (e, h) m =
    spared_all priority now x ids _ h
      (unfold new_job in spared priority now x (new_job k priority now) t e m)

wanted_others :
    (x : Job) (t : Jobs) (ids : List ℕ)
    → Memᴰ x t
    → is_settled x ≡ true
    → All (λ i. has_clip i x ≡ false) (select (is_missing t) ids)
unfolding is_missing
wanted_others x t [] m h = tt
wanted_others x t (i ∷ ids) m h = elim (Bool-cases (has_clip i x)) [
  | inl same ↦
      let found = any_of_mem (λ j. has_clip i j && is_settled j) t m (ground arith) in
      let e : (is_missing t i ≡ false) = rw found refl in rw e (wanted_others x t ids m h)
  | inr other ↦ elim (Bool-cases (is_missing t i)) [
    | inl wanted ↦ rw wanted (other, wanted_others x t ids m h)
    | inr e ↦ rw e (wanted_others x t ids m h)
  ]
]

-- After a scan every clip of the index has a row that has not failed, and the rows that were done
-- or running are as they were: a repeated scan derives nothing twice.
pub enqueue_missing_covers :
    (ids : List ℕ) (priority now : ℕ) (t : Jobs)
    → ((i : ℕ) → Memᴰ i ids → any (live i) (enqueue_missing ids priority now t).0 ≡ true)
      × ((j : Job)
          → Memᴰ j t
          → (is_done j || is_running j) ≡ true
          → Memᴰ j (enqueue_missing ids priority now t).0)
unfolding enqueue_missing
enqueue_missing_covers ids priority now t = (
  λ i m. elim (Bool-cases (is_missing t i)) [
    | inl wanted ↦
        upsert_all_makes i priority now (select (is_missing t) ids) t
          (mem-select (is_missing t) ids m wanted)
    | inr settled ↦
        upsert_all-live i priority now (select (is_missing t) ids) t
          (live_of_settled i t (settled_row i settled))
  ],
  λ j m h. spared_all priority now j (select (is_missing t) ids) t (wanted_others j t ids m h) m,
)
  where
    settled_row :
        (i : ℕ) → is_missing t i ≡ false → any (λ j. has_clip i j && is_settled j) t ≡ true
    settled_row i e = ground arith
