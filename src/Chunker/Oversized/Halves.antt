-- ===== src/Chunker/Oversized/Halves.antt =====
-- `char_halves` cuts a span into pieces that fit, without gaps, and its fuel is enough.
use docmesh.Prelude.{
  ℕ, zero, suc, ◌+◌, ◌-◌, ◌/◌, ◌≤◌, ◌<◌, ◌⊎◌, inl, inr, Bool, ◌||◌, leb, ltb, slice, Bool-cases,
  arith, All, All-append,
}
use docmesh.Text.{
  Text, Span, Ordered, InSpans, Ordered-append, InSpans-append_left, InSpans-append_right,
}
use docmesh.Chunker.Oversized.{char_halves}

module _ (full_text : Text) (target : ℕ) (count_tokens : Text → ℕ) where
  -- The span fits the budget, or is one character.
  abbrev pub IsSmall : Span → Type 0
  IsSmall (s, e) = (count_tokens (slice full_text s e) ≤ target) ⊎ (e - s ≤ 1)

  abbrev stops : ℕ → ℕ → Bool
  stops start end = leb (count_tokens (slice full_text start end)) target || leb (end - start) 1

  pub char_halves-Ordered :
      (fuel start end : ℕ)
      → start < end
      → Ordered start end (char_halves full_text target count_tokens fuel start end)
  unfolding char_halves
  char_halves-Ordered zero start end h = omega arith
  char_halves-Ordered (suc fuel) start end h = elim (Bool-cases (stops start end)) [
    | inl stop ↦ rw stop (omega arith)
    | inr more ↦
        let long : 1 < end - start = ground arith in
        let mid : ℕ = start + (end - start) / 2 in
        rw more (
          Ordered-append start mid end _ _ (char_halves-Ordered fuel start mid (omega arith))
            (char_halves-Ordered fuel mid end (omega arith)))
  ]

  pub char_halves-InSpans :
      (fuel start end k : ℕ)
      → start ≤ k
      → k < end
      → InSpans k (char_halves full_text target count_tokens fuel start end)
  unfolding char_halves
  char_halves-InSpans zero start end k h l = inl (h, l)
  char_halves-InSpans (suc fuel) start end k h l =
      let mid : ℕ = start + (end - start) / 2 in
      elim (Bool-cases (stops start end)) [
        | inl stop ↦ rw stop (inl (h, l))
        | inr more ↦ rw more (elim (Bool-cases (ltb k mid)) [
          | inl low ↦
              InSpans-append_left k _ _ (char_halves-InSpans fuel start mid k h (ground arith))
          | inr high ↦
              InSpans-append_right k (char_halves full_text target count_tokens fuel start mid) _
                (char_halves-InSpans fuel mid end k (ground arith) l)
        ])
      ]

  pub char_halves-IsSmall :
      (fuel start end : ℕ)
      → end - start ≤ fuel
      → All IsSmall (char_halves full_text target count_tokens fuel start end)
  unfolding char_halves
  char_halves-IsSmall zero start end h = (inr (omega arith), tt)
  char_halves-IsSmall (suc fuel) start end h =
      let mid : ℕ = start + (end - start) / 2 in
      elim (Bool-cases (stops start end)) [
        | inl stop ↦ rw stop (ground arith, tt)
        | inr more ↦
            let long : 1 < end - start = ground arith in
            rw more (
              All-append IsSmall (char_halves full_text target count_tokens fuel start mid) _
                (char_halves-IsSmall fuel start mid (omega arith))
                (char_halves-IsSmall fuel mid end (omega arith)))
      ]
