-- ===== src/Text/Runs/Cover.antt =====
-- The runs stand in order within the text, and hold every character with the property.
use docmesh.Prelude.{
  ℕ, zero, suc, ◌+◌, ◌≤◌, ◌<◌, ◌≡◌, ◌⊎◌, inl, inr, Bool, true, false, not, Option, none, some, List,
  [], ◌∷◌, length, arith, sym, subst,
}
use docmesh.Text.Spans.{Text, Unicode, Span, Ordered, InSpans, test_at, Ordered-weaken}
use docmesh.Text.Runs.{next, emit, runs_from, runs, words}

-- Where the spans of an open state may begin.
abbrev begin : ℕ → Option ℕ → ℕ
begin i none = i
begin i (some s) = s

abbrev IsOpen : ℕ → Option ℕ → Type 0
IsOpen i none = Unit
IsOpen i (some s) = s < i

emit-Ordered :
    (b : Bool) (i : ℕ) (st : Option ℕ) (hi : ℕ) (rest : List Span)
    → IsOpen i st
    → Ordered (begin (i + 1) (next b i st)) hi rest
    → Ordered (begin i st) hi (emit b i st rest)
emit-Ordered true i none hi rest h o = o
emit-Ordered true i (some s) hi rest h o = o
emit-Ordered false i none hi rest h o = Ordered-weaken (i + 1) i hi rest (omega arith) o
emit-Ordered false i (some s) hi rest h o =
    (omega arith, h, Ordered-weaken (i + 1) i hi rest (omega arith) o)

next-IsOpen : (b : Bool) (i : ℕ) (st : Option ℕ) → IsOpen i st → IsOpen (i + 1) (next b i st)
next-IsOpen true i none h = omega arith
next-IsOpen true i (some s) h = omega arith
next-IsOpen false i st h = tt

-- A position of the run that is open, or of a later one.
abbrev InOpen : ℕ → ℕ → Option ℕ → List Span → Type 0
InOpen k i none rest = InSpans k rest
InOpen k i (some s) rest = (s ≤ k) × (k < i) ⊎ InSpans k rest

emit-InSpans :
    (b : Bool) (i : ℕ) (st : Option ℕ) (k : ℕ) (rest : List Span)
    → InSpans k rest
    → InSpans k (emit b i st rest)
emit-InSpans true i st k rest h = h
emit-InSpans false i none k rest h = h
emit-InSpans false i (some s) k rest h = inr h

module _ (p : ℕ → Bool) where
  runs_from-Ordered :
      (i : ℕ) (st : Option ℕ) (t : Text) (hi : ℕ)
      → hi ≡ i + length t
      → IsOpen i st
      → Ordered (begin i st) hi (runs_from p i st t)
  unfolding runs_from
  runs_from-Ordered i none [] hi e h = omega arith
  runs_from-Ordered i (some s) [] hi e h = omega arith
  runs_from-Ordered i st (c ∷ t) hi e h =
      emit-Ordered (p c) i st hi _ h
        (runs_from-Ordered (i + 1) (next (p c) i st) t hi (omega arith) (next-IsOpen (p c) i st h))

  -- The run that is open is put out in the end.
  open-InSpans : (i s k : ℕ) (t : Text) → s ≤ k → k < i → InSpans k (runs_from p i (some s) t)
  unfolding runs_from
  open-InSpans i s k [] h l = inl (h, l)
  open-InSpans i s k (c ∷ t) h l = step (p c) (open-InSpans (i + 1) s k t h (omega arith))
    where
      step :
          (b : Bool)
          → InSpans k (runs_from p (i + 1) (some s) t)
          → InSpans k (emit b i (some s) (runs_from p (i + 1) (next b i (some s)) t))
      step true r = r
      step false r = inl (h, l)

  runs_from-InSpans :
      (i : ℕ) (st : Option ℕ) (t : Text) (j k : ℕ)
      → test_at p t j ≡ true
      → k ≡ i + j
      → IsOpen i st
      → InSpans k (runs_from p i st t)
  unfolding runs_from
  runs_from-InSpans i st [] j k h e o = ground arith
  runs_from-InSpans i st (c ∷ t) (suc j) k h e o =
      emit-InSpans (p c) i st k _ (
        runs_from-InSpans (i + 1) (next (p c) i st) t j k h (omega arith)
          (next-IsOpen (p c) i st o))
  runs_from-InSpans i none (c ∷ t) zero k h e o =
      subst (λ b. InSpans k (emit b i none (runs_from p (i + 1) (next b i none) t))) (sym h)
        (open-InSpans (i + 1) i k t (omega arith) (omega arith))
  runs_from-InSpans i (some s) (c ∷ t) zero k h e o =
      subst (λ b. InSpans k (emit b i (some s) (runs_from p (i + 1) (next b i (some s)) t))) (sym h)
        (open-InSpans (i + 1) s k t (omega arith) (omega arith))

  pub runs-Ordered : (t : Text) → Ordered 0 (length t) (runs p t)
  unfolding runs
  runs-Ordered t =
      Ordered-weaken 0 0 (length t) (runs p t) (omega arith)
        (runs_from-Ordered 0 none t (length t) (omega arith) tt)

  pub runs-InSpans : (t : Text) (j : ℕ) → test_at p t j ≡ true → InSpans j (runs p t)
  unfolding runs
  runs-InSpans t j h = runs_from-InSpans 0 none t j j h (omega arith) tt

other_at :
    (p : ℕ → Bool) (t : Text) (j : ℕ)
    → j < length t
    → test_at p t j ≡ false
    → test_at (λ c. not (p c)) t j ≡ true
other_at p [] j h e = absurd (omega arith)
other_at p (c ∷ t) zero h e = rw e
other_at p (c ∷ t) (suc j) h e = other_at p t j (omega arith) e

module _ ⦃u : Unicode⦄ where
  pub words-Ordered : (t : Text) → Ordered 0 (length t) (words t)
  unfolding words
  words-Ordered t = runs-Ordered (λ c. not (u.is_space c)) t

  pub words-InSpans :
      (t : Text) (j : ℕ) → j < length t → test_at u.is_space t j ≡ false → InSpans j (words t)
  unfolding words
  words-InSpans t j h e = runs-InSpans (λ c. not (u.is_space c)) t j (other_at u.is_space t j h e)
