-- ===== src/Chunker/Sentences/Cover.antt =====
-- The sentence spans stand in order, are trimmed, and hold every character that is no white space.
use docmesh.Prelude.{
  ℕ, zero, suc, ◌+◌, ◌-◌, ◌≤◌, ◌<◌, ◌≡◌, ◌≢◌, ap, ◌∙◌, inl, inr, sym, true, false, List, [], ◌∷◌,
  ◌++◌, map, ltb, length, Bool-cases, arith, All, All-append, if_both,
}
use docmesh.Text.{
  Text, Unicode, Span, Ordered, InSpans, test_at, Ordered-append, Ordered-filter,
  InSpans-append_left, InSpans-append_right,
}
use docmesh.Text.Runs.Cover.{runs-Ordered}
use docmesh.Chunker.Sentences.{
  boundaries, skip_space, trim_end, trim_span, sentences_from, split_sentences,
}

-- The numbers do not fall, and lie between `lo` and `hi`.
abbrev Rising : ℕ → ℕ → List ℕ → Type 0
Rising lo hi [] = lo ≤ hi
Rising lo hi (e ∷ es) = (lo ≤ e) × Rising e hi es

Ordered-Rising :
    (lo hi : ℕ) (r : List Span)
    → Ordered lo hi r
    → Rising lo hi (map (λ (m : Span). m.1) r ++ hi ∷ [])
Ordered-Rising lo hi [] o = (o, omega arith)
Ordered-Rising lo hi ((s, e) ∷ r) o = (omega arith, Ordered-Rising e hi r o.2)

module _ ⦃u : Unicode⦄ (text : Text) where
  -- The span begins and ends with a character that is no white space.
  abbrev pub IsTrimmed : Span → Type 0
  IsTrimmed (s, e) = (test_at u.is_space text s ≡ false) × (test_at u.is_space text (e - 1) ≡ false)

  differ : (j k : ℕ) → test_at u.is_space text j ≡ true → test_at u.is_space text k ≡ false → j ≢ k
  differ j k h e q = cc (sym h ∙ ap (test_at u.is_space text) q ∙ e)

  skip_space_bounds :
      (n start : ℕ) → (start ≤ skip_space text n start) × (skip_space text n start ≤ start + n)
  unfolding skip_space
  skip_space_bounds zero start = omega arith
  skip_space_bounds (suc n) start = ground (arith, skip_space_bounds n (start + 1))

  -- The loop stops at the first character that is no white space.
  skip_space-le :
      (n start k : ℕ) → start ≤ k → test_at u.is_space text k ≡ false → skip_space text n start ≤ k
  unfolding skip_space
  skip_space-le zero start k h e = h
  skip_space-le (suc n) start k h e = elim (Bool-cases (test_at u.is_space text start)) [
    | inl space ↦ rw space (skip_space-le n (start + 1) k (omega (arith, differ start k space e)) e)
    | inr other ↦ rw other h
  ]

  skip_space_stop :
      (n start : ℕ)
      → skip_space text n start < start + n
      → test_at u.is_space text (skip_space text n start) ≡ false
  unfolding skip_space
  skip_space_stop zero start h = absurd (omega arith)
  skip_space_stop (suc n) start h = elim (Bool-cases (test_at u.is_space text start)) [
    | inl space ↦ rw space (skip_space_stop n (start + 1) (ground arith))
    | inr other ↦ rw other other
  ]

  trim_end_bounds :
      (n start : ℕ) → (start ≤ trim_end text n start) × (trim_end text n start ≤ start + n)
  unfolding trim_end
  trim_end_bounds zero start = omega arith
  trim_end_bounds (suc n) start = ground (arith, trim_end_bounds n start)

  lt-trim_end :
      (n start k : ℕ)
      → k < start + n
      → start ≤ k
      → test_at u.is_space text k ≡ false
      → k < trim_end text n start
  unfolding trim_end
  lt-trim_end zero start k h l e = absurd (omega arith)
  lt-trim_end (suc n) start k h l e = elim (Bool-cases (test_at u.is_space text (start + n))) [
    | inl space ↦ rw space (lt-trim_end n start k (omega (arith, differ (start + n) k space e)) l e)
    | inr other ↦ rw other h
  ]

  trim_end_stop :
      (n start : ℕ)
      → start < trim_end text n start
      → test_at u.is_space text (trim_end text n start - 1) ≡ false
  unfolding trim_end
  trim_end_stop zero start h = absurd (omega arith)
  trim_end_stop (suc n) start h = elim (Bool-cases (test_at u.is_space text (start + n))) [
    | inl space ↦ rw space (trim_end_stop n start (ground arith))
    | inr other ↦ let last : start + suc n - 1 ≡ start + n = omega arith in rw (other, last) other
  ]

  module _ (start end : ℕ) (below : start ≤ end) where
    -- What the two loops of a span leave.
    abbrev from : ℕ
    from = skip_space text (end - start) start

    abbrev to : ℕ
    to = trim_end text (end - from) from

    trim_range : (start ≤ from) × (from ≤ to) × (to ≤ end)
    trim_range =
        omega (arith, skip_space_bounds (end - start) start, trim_end_bounds (end - from) from)

    trim_span-Ordered : Ordered start end (trim_span text start end)
    unfolding trim_span
    trim_span-Ordered =
        if_both (Ordered start end) (ltb from to) (λ more. ground (arith, trim_range)) (λ _. below)

    trim_span-IsTrimmed : All IsTrimmed (trim_span text start end)
    unfolding trim_span
    trim_span-IsTrimmed =
        if_both (All IsTrimmed) (ltb from to)
          (λ more. (
            (
              skip_space_stop (end - start) start (ground (arith, trim_range)),
              trim_end_stop (end - from) from (ground (arith, trim_range)),
            ),
            tt,
          ))
          (λ _. tt)

    trim_span-InSpans :
        (k : ℕ)
        → start ≤ k
        → k < end
        → test_at u.is_space text k ≡ false
        → InSpans k (trim_span text start end)
    unfolding trim_span
    trim_span-InSpans k h l e =
        let low : from ≤ k = skip_space-le (end - start) start k h e in
        let high : k < to = lt-trim_end (end - from) from k (omega arith) low e in
        if_both (InSpans k) (ltb from to) (λ _. inl (low, high)) (λ empty. absurd (ground arith))

  sentences_from-Ordered :
      (start hi : ℕ) (ends : List ℕ)
      → Rising start hi ends
      → Ordered start hi (sentences_from text start ends)
  unfolding sentences_from
  sentences_from-Ordered start hi [] h = h
  sentences_from-Ordered start hi (end ∷ ends) h =
      Ordered-append start end hi _ _ (trim_span-Ordered start end h.0)
        (sentences_from-Ordered end hi ends h.1)

  sentences_from-IsTrimmed :
      (start hi : ℕ) (ends : List ℕ)
      → Rising start hi ends
      → All IsTrimmed (sentences_from text start ends)
  unfolding sentences_from
  sentences_from-IsTrimmed start hi [] h = tt
  sentences_from-IsTrimmed start hi (end ∷ ends) h =
      All-append IsTrimmed (trim_span text start end) _ (trim_span-IsTrimmed start end h.0)
        (sentences_from-IsTrimmed end hi ends h.1)

  sentences_from-InSpans :
      (start hi : ℕ) (ends : List ℕ) (k : ℕ)
      → Rising start hi (ends ++ hi ∷ [])
      → start ≤ k
      → k < hi
      → test_at u.is_space text k ≡ false
      → InSpans k (sentences_from text start (ends ++ hi ∷ []))
  unfolding sentences_from
  sentences_from-InSpans start hi [] k h s l e =
      InSpans-append_left k _ [] (trim_span-InSpans start hi h.0 k s l e)
  sentences_from-InSpans start hi (end ∷ ends) k h s l e = elim (Bool-cases (ltb k end)) [
    | inl here ↦ InSpans-append_left k _ _ (trim_span-InSpans start end h.0 k s (ground arith) e)
    | inr later ↦
        InSpans-append_right k (trim_span text start end) _
          (sentences_from-InSpans end hi ends k h.1 (ground arith) l e)
  ]

  boundaries-Rising : Rising 0 (length text) (boundaries text ++ length text ∷ [])
  unfolding boundaries
  boundaries-Rising = Ordered-Rising 0 (length text) _ (
      Ordered-filter _ 0 (length text) _ (Ordered-filter _ 0 (length text) _ (runs-Ordered _ text)))

  -- The sentences are spans within the text, in order, that do not overlap; none is empty, and
  -- each begins and ends with a character that is no white space.
  pub split_sentences-Ordered :
      Ordered 0 (length text) (split_sentences text) × All IsTrimmed (split_sentences text)
  unfolding split_sentences
  split_sentences-Ordered = (
    sentences_from-Ordered 0 (length text) _ boundaries-Rising,
    sentences_from-IsTrimmed 0 (length text) _ boundaries-Rising,
  )

  -- Every character of the text that is no white space lies in a sentence.
  pub split_sentences-InSpans :
      (k : ℕ)
      → k < length text
      → test_at u.is_space text k ≡ false
      → InSpans k (split_sentences text)
  unfolding split_sentences
  split_sentences-InSpans k l e =
      sentences_from-InSpans 0 (length text) (boundaries text) k boundaries-Rising (omega arith) l e
