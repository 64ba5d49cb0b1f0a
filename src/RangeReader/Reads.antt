-- ===== src/RangeReader/Reads.antt =====
-- viofosync_lib/_protocol.py: a read over HTTP is a read of the file.
use viofosync.Prelude.{
  ℕ, ◌+◌, ◌-◌, ◌≤◌, ◌<◌, ◌≡◌, refl, sym, ap, ◌∙◌, ◌⊎◌, inl, inr, [], ◌∷◌, ◌++◌, Option, none, some,
  arith, ltb, leb, min, length, take, drop, length-take, length-drop, drop-take, take_whole,
  take-take, take-append, drop_of_append, length-append, take_short, Bool-cases,
}
use viofosync.Gpx.{Bytes, read_at}
use viofosync.RangeReader.{ReadRange, Reader, open_reader, seek, fetch, checked, asked, read}

module _ (f : Bytes) (read_range : ReadRange) where
  -- The bytes of the file from `s` up to `e`.
  abbrev slice : ℕ → ℕ → Bytes
  slice s e = drop s (take e f)

  length-slice : (s e : ℕ) → e ≤ length f → length (slice s e) ≡ e - s
  length-slice s e h = omega (arith, length-drop s (take e f), length-take e f)

  -- An answer has bytes of its range only, from the first one on; it may break off.
  abbrev pub IsHonest : Type 0
  IsHonest =
      (a b : ℕ)
      → a ≤ b
      → b < length f
      → (k : ℕ) × (read_range a b ≡ take k (drop a (take (b + 1) f)))

  -- A reader whose head is the first bytes of the file.
  abbrev HasHead : Reader → ℕ → Type 0
  HasHead r h = (r.head ≡ take h f) × (length r.head ≡ h) × (h ≤ length f)

  module _ (honest : IsHonest) where
    answered :
        (s e : ℕ)
        → s < e
        → e ≤ length f
        → e - s ≤ length (read_range s (e - 1))
        → read_range s (e - 1) ≡ slice s e
    answered s e lt le long =
        let (k, h) = honest s (e - 1) (omega arith) (omega arith) in
        let same : e - 1 + 1 ≡ e = omega arith in
        let part : read_range s (e - 1) ≡ take k (slice s e) = rw same at h in
        part
        ∙ take_whole k (slice s e)
            (let n = length-slice s e le in let m = ap length part in omega (arith, n, m, long))

    answered-short : (s e : ℕ) → s < e → e ≤ length f → length (read_range s (e - 1)) ≤ e - s
    answered-short s e lt le =
        let (k, h) = honest s (e - 1) (omega arith) (omega arith) in
        let same : e - 1 + 1 ≡ e = omega arith in
        let part : read_range s (e - 1) ≡ take k (slice s e) = rw same at h in
        omega (arith, length-slice s e le, ap length part, length-take k (slice s e))

    split-slice :
        (s e h : ℕ) (head : Bytes)
        → head ≡ take h f
        → length head ≡ h
        → s < h
        → h < e
        → e ≤ length f
        → e - s ≤ length (drop s head ++ read_range h (e - 1))
        → drop s head ++ read_range h (e - 1) ≡ slice s e
    split-slice s e h head is len lt below in_file long =
        let n = length-append (drop s head) (read_range h (e - 1)) in
        let m = length-drop s head in
        let rest = answered h e below in_file (omega (arith, n, m, long, len)) in
        ap (λ x. drop s head ++ x) rest
        ∙ drop_of_append s head (slice h e) (omega arith)
        ∙ ap (λ x. drop s (x ++ slice h e)) is
        ∙ ap (drop s) (take-append h e f (omega arith))

    fetch-slice :
        (s e h : ℕ) (r : Reader)
        → HasHead r h
        → s < e
        → e ≤ length f
        → e - s ≤ length (fetch read_range s e r)
        → fetch read_range s e r ≡ slice s e
    unfolding fetch
    fetch-slice s e h r (is, len, le) lt in_file long = elim (Bool-cases (leb e (length r.head))) [
      | inl inside ↦
          rw inside
            (let small : min e h ≡ e = ground arith in rw is (rw (take-take e h f, small) refl))
      | inr beyond ↦ elim (Bool-cases (leb (length r.head) s)) [
        | inl after ↦ rw (beyond, after) (answered s e lt in_file (rw (beyond, after) at long))
        | inr over ↦
            rw (beyond, over)
              (split-slice s e (length r.head) r.head (rw len is) refl (ground arith) (ground arith)
                in_file (rw (beyond, over) at long))
      ]
    ]

    open_reader-HasHead :
        (head_len : ℕ)
        → HasHead
            (open_reader read_range (length f) head_len)
            (length (open_reader read_range (length f) head_len).head)
    unfolding open_reader
    open_reader-HasHead head_len = elim (Bool-cases (ltb 0 (min head_len (length f)))) [
      | inl e ↦ rw e (prefix (min head_len (length f)) (ground arith) (omega arith))
      | inr e ↦ rw e (refl, refl, omega arith)
    ]
      where
        prefix :
            (n : ℕ)
            → 0 < n
            → n ≤ length f
            → (read_range 0 (n - 1) ≡ take (length (read_range 0 (n - 1))) f)
              × (length (read_range 0 (n - 1)) ≡ length (read_range 0 (n - 1)))
              × (length (read_range 0 (n - 1)) ≤ length f)
        prefix n pos le =
            let (k, h) = honest 0 (n - 1) (omega arith) (omega arith) in
            let same : n - 1 + 1 ≡ n = omega arith in
            let part : read_range 0 (n - 1) ≡ take (min k n) f = (rw same at h) ∙ take-take k n f in
            let size : length (read_range 0 (n - 1)) ≡ min k n =
              omega (arith, ap length part, length-take (min k n) f) in
            (rw size part, refl, omega arith)

    -- What a read gives at `p`, where `n` bytes are asked for: those of the file, or TruncatedRead.
    abbrev pub IsRead : ℕ → ℕ → Option Bytes × Reader → Type 0
    IsRead p n r =
        (r.0 ≡ none) ⊎ ((r.0 ≡ some (read_at f p n)) × (r.1.pos ≡ p + length (read_at f p n)))

    -- An answer is the whole range.
    abbrev pub IsExact : Type 0
    IsExact = (a b : ℕ) → a ≤ b → b < length f → read_range a b ≡ drop a (take (b + 1) f)

    exact-length :
        IsExact → (s e : ℕ) → s < e → e ≤ length f → length (read_range s (e - 1)) ≡ e - s
    exact-length exact s e lt le =
        let same : e - 1 + 1 ≡ e = omega arith in
        let h : read_range s (e - 1) ≡ slice s e =
          rw same at (exact s (e - 1) (omega arith) (omega arith)) in
        ap length h ∙ length-slice s e le

    fetch-long :
        IsExact
        → (s e h : ℕ) (r : Reader) → HasHead r h
        → s < e
        → e ≤ length f
        → e - s ≤ length (fetch read_range s e r)
    unfolding fetch
    fetch-long exact s e h r (is, len, le) lt in_file = elim (Bool-cases (leb e (length r.head))) [
      | inl inside ↦ rw inside (
          let a : e ≤ length r.head = ground arith in
          omega (arith, length-drop s (take e r.head), length-take e r.head, a))
      | inr beyond ↦ elim (Bool-cases (leb (length r.head) s)) [
        | inl after ↦
            rw (beyond, after) (let n = exact-length exact s e lt in_file in omega (arith, n))
        | inr over ↦
            rw (beyond, over)
              (let a : s < length r.head = ground arith in
                let b : length r.head < e = ground arith in
                let n = exact-length exact (length r.head) e b in_file in
                omega (
                  arith,
                  n,
                  a,
                  b,
                  length-append (drop s r.head) (read_range (length r.head) (e - 1)),
                  length-drop s r.head,
                ))
      ]
    ]

    slice-read_at : (p n : ℕ) → slice p (min (p + n) (length f)) ≡ read_at f p n
    slice-read_at p n = ap (drop p) (sym (take_short (p + n) f)) ∙ sym (drop-take p n f)

    checked-IsRead :
        (p n h : ℕ) (r : Reader)
        → HasHead r h
        → p < min (p + n) (length f)
        → let e = min (p + n) (length f) in
          IsRead p n (checked read_range p e (fetch read_range p e r) r)
          × (IsExact → (checked read_range p e (fetch read_range p e r) r).0 ≡ none → ⊥)
    checked-IsRead p n h r head lt =
        elim (Bool-cases (
          ltb (length (fetch read_range p (min (p + n) (length f)) r))
            (min (p + n) (length f) - p))) [
              | inl short ↦ rw short (
                inl refl,
                λ exact e. absurd (
                    let long =
                      fetch-long exact p (min (p + n) (length f)) h r head lt (omega arith) in
                    ground arith),
              )
              | inr full ↦
                  let long : min (p + n) (length f) - p
                      ≤ length (fetch read_range p (min (p + n) (length f)) r) =
                    ground arith in
                  let same =
                    fetch-slice p (min (p + n) (length f)) h r head lt (omega arith) long
                    ∙ slice-read_at p n in
                  rw full (inr (ap some same, ap (λ (b : Bytes). p + length b) same), λ exact e. cc)
            ]

    nil_of_length : (b : Bytes) → length b ≡ 0 → [] ≡ b
    nil_of_length [] h = refl
    nil_of_length (x ∷ b) h = absurd (omega arith)

    abbrev reader : ℕ → Bytes → Reader
    reader p head = record { size = length f; pos = p; head = head }

    read-IsRead :
        (h p : ℕ) (head : Bytes) (n : Option ℕ)
        → HasHead (reader p head) h
        → IsRead p (asked read_range n (reader p head)) (read read_range n (reader p head))
          × (IsExact → (read read_range n (reader p head)).0 ≡ none → ⊥)
    unfolding read
    read-IsRead h p head n is =
        elim (Bool-cases (leb (min (p + asked read_range n (reader p head)) (length f)) p)) [
          | inl past ↦
              let m = asked read_range n (reader p head) in
              let none_left : length (read_at f p m) ≡ 0 =
                (let a : min (p + m) (length f) ≤ p = ground arith in
                  omega (arith, length-take m (drop p f), length-drop p f, a)) in
              rw past (
                inr (ap some (nil_of_length (read_at f p m) none_left), omega arith),
                λ exact e. cc,
              )
          | inr left ↦ rw left (
              checked-IsRead p (asked read_range n (reader p head)) h (reader p head) is
                (ground arith))
        ]

    -- On a server whose answers to a range start with its first byte and hold no other bytes than the
    -- range's, though they may break off, a reader that was opened with any head and moved to any
    -- place gives the bytes that the file has there, as many as were asked for up to the end of the
    -- file, and moves on by as many; or it raises TruncatedRead, which it never does when the server
    -- sends every range in full.
    pub read-read_at :
        (head_len p : ℕ) (n : Option ℕ)
        → let r = seek read_range p (open_reader read_range (length f) head_len) in
          IsRead p (asked read_range n r) (read read_range n r)
          × (IsExact → (read read_range n r).0 ≡ none → ⊥)
    unfolding open_reader
    read-read_at head_len p n =
        let head = (open_reader read_range (length f) head_len).head in
        read-IsRead (length head) p head n (open_reader-HasHead head_len)
