-- ===== src/RangeReader/Answers.antt =====
-- viofosync_lib/_protocol.py: a server that ignores the range of a request.
use viofosync.Prelude.{
  ℕ, ◌+◌, ◌-◌, ◌≤◌, ◌<◌, ◌≡◌, refl, sym, inl, inr, ltb, arith, length, take, drop, take-length,
  Bool-cases,
}
use viofosync.Gpx.{Bytes}
use viofosync.RangeReader.{of_answer}

-- The whole file as the answer is cut to the range, which is inside the file.
pub of_answer_whole :
    (f : Bytes) (a b : ℕ) → a ≤ b → b < length f → of_answer a b (200, f) ≡ drop a (take (b + 1) f)
unfolding of_answer
of_answer_whole f a b le lt = elim (Bool-cases (ltb (b - a + 1) (length f))) [
  | inl e ↦ rw e refl
  | inr e ↦
      let zeroth : a ≡ 0 = ground arith in
      let last : b + 1 ≡ length f = ground arith in rw (e, zeroth, last) (sym (take-length f))
]
