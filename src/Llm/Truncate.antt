-- ===== src/Llm/Truncate.antt =====
-- `truncate_at_word` of backend/app/llm/prompt.py.
use docmesh.Prelude.{
  ℕ, zero, suc, ◌≤◌, ◌<◌, ◌≡◌, refl, Bool, false, not, ◌||◌, Option, none, some, [], ◌∷◌, ◌++◌,
  take, length, leb, if◌then◌else◌, arith, length-append, length-take, if_both, Bool-cases, inl,
  inr, ap, sym, subst,
}
use docmesh.Text.{Text, Unicode, lstrip, rstrip, rstrip_cons}

-- `any(p(ch) for ch in t)`
unfoldable pub any : (ℕ → Bool) → Text → Bool
any p [] = false
any p (c ∷ t) = p c || any p t

-- The character "…".
abbrev pub ellipsis : Text
ellipsis = 8230 ∷ []

module _ ⦃u : Unicode⦄ where
  -- The first of the two parts, where the white space before the last word is dropped: that word
  -- itself where nothing stands before it.
  abbrev pub before_word : Text → Text → Text
  before_word s [] = lstrip u.is_space s
  before_word s (c ∷ t) = c ∷ t

  abbrev pub rsplit_stripped : Text → Option Text
  rsplit_stripped [] = none
  rsplit_stripped (c ∷ t) =
      some (before_word (c ∷ t) (rstrip u.is_space (rstrip (λ x. not (u.is_space x)) (c ∷ t))))

  -- `cut.rsplit(None, 1)[0]`; `none` is the `IndexError` for a text of white space.
  unfoldable pub rsplit_head : Text → Option Text
  unfolding lstrip rstrip
  rsplit_head cut = rsplit_stripped (rstrip u.is_space cut)

  abbrev pub with_ellipsis : Option Text → Option Text
  with_ellipsis none = none
  with_ellipsis (some head) = some (rstrip u.is_space head ++ ellipsis)

  unfoldable pub truncate_at_word : Text → ℕ → Option Text
  unfolding any rsplit_head rstrip
  truncate_at_word text limit =
      let cut = take limit text in
      if leb (length text) limit
      then some text
      else with_ellipsis (if any u.is_space cut then rsplit_head cut else some cut)

length-lstrip : (p : ℕ → Bool) (t : Text) → length (lstrip p t) ≤ length t
unfolding lstrip
length-lstrip p [] = omega arith
length-lstrip p (c ∷ t) = ground (arith, length-lstrip p t)

length-rstrip : (p : ℕ → Bool) (t : Text) → length (rstrip p t) ≤ length t
unfolding rstrip
length-rstrip p [] = omega arith
length-rstrip p (c ∷ t) = step (rstrip p t) (length-rstrip p t)
  where
    step : (r : Text) → length r ≤ length t → length (rstrip_cons p c r) ≤ suc (length t)
    step [] h = ground arith
    step (x ∷ r) h = omega arith

-- The length of the result, if there is one.
abbrev pub AtMost : ℕ → Option Text → Type 0
AtMost n none = Unit
AtMost n (some t) = length t ≤ n

AtMost-weaken : (m n : ℕ) (o : Option Text) → m ≤ n → AtMost m o → AtMost n o
AtMost-weaken m n none h k = tt
AtMost-weaken m n (some t) h k = omega arith

module _ ⦃u : Unicode⦄ where
  before_word-AtMost :
      (n : ℕ) (s t : Text) → length s ≤ n → length t ≤ n → length (before_word s t) ≤ n
  before_word-AtMost n s [] h k = omega (arith, length-lstrip u.is_space s)
  before_word-AtMost n s (c ∷ t) h k = k

  rsplit_head-AtMost : (cut : Text) → AtMost (length cut) (rsplit_head cut)
  unfolding rsplit_head
  rsplit_head-AtMost cut = step (rstrip u.is_space cut) (length-rstrip u.is_space cut)
    where
      step : (s : Text) → length s ≤ length cut → AtMost (length cut) (rsplit_stripped s)
      step [] h = tt
      step (c ∷ t) h =
          let word_cut = rstrip (λ x. not (u.is_space x)) (c ∷ t) in
          before_word-AtMost (length cut) (c ∷ t) (rstrip u.is_space word_cut) h (
            omega (
              arith,
              length-rstrip u.is_space word_cut,
              length-rstrip (λ x. not (u.is_space x)) (c ∷ t),
            ))

  cut-AtMost :
      (text : Text) (limit : ℕ)
      → AtMost limit (
          if any u.is_space (take limit text)
          then rsplit_head (take limit text)
          else some (take limit text))
  cut-AtMost text limit =
      let cut = take limit text in
      let size : length cut ≤ limit = omega (arith, length-take limit text) in
      if_both (AtMost limit) (any u.is_space cut)
        (λ _. AtMost-weaken (length cut) limit (rsplit_head cut) size (rsplit_head-AtMost cut))
        (λ _. size)

  with_ellipsis-AtMost : (n : ℕ) (o : Option Text) → AtMost n o → AtMost (suc n) (with_ellipsis o)
  with_ellipsis-AtMost n none h = tt
  with_ellipsis-AtMost n (some t) h =
      omega (arith, length-append (rstrip u.is_space t) ellipsis, length-rstrip u.is_space t)

  -- A text within the limit is unchanged. Another is cut to at most the limit, and the ellipsis comes
  -- on top of it.
  pub truncate_at_word-AtMost :
      (text : Text) (limit : ℕ)
      → AtMost (suc limit) (truncate_at_word text limit)
        × (length text ≤ limit → truncate_at_word text limit ≡ some text)
  unfolding truncate_at_word
  truncate_at_word-AtMost text limit = elim (Bool-cases (leb (length text) limit)) [
    | inl fits ↦ rw fits ((ground arith), λ _. refl)
    | inr long ↦
        rw long (with_ellipsis-AtMost limit _ (cut-AtMost text limit), λ h. absurd (ground arith))
  ]

-- The text is empty, or begins with a character that is no white space.
abbrev pub StartsSolid : ⦃u : Unicode⦄ → Text → Type 0
StartsSolid [] = Unit
StartsSolid ⦃u⦄ (c ∷ t) = u.is_space c ≡ false

module _ ⦃u : Unicode⦄ where
  pub lstrip-StartsSolid : (t : Text) → StartsSolid (lstrip u.is_space t)
  unfolding lstrip
  lstrip-StartsSolid [] = tt
  lstrip-StartsSolid (c ∷ t) =
      if_both StartsSolid (u.is_space c) (λ _. lstrip-StartsSolid t) (λ solid. solid)

  rstrip_solid :
      (c : ℕ) (t : Text) → u.is_space c ≡ false → (r : Text) × (rstrip u.is_space (c ∷ t) ≡ c ∷ r)
  unfolding rstrip
  rstrip_solid c t h = step (rstrip u.is_space t)
    where
      step : (s : Text) → (r : Text) × (rstrip_cons u.is_space c s ≡ c ∷ r)
      step [] = ([], rw h refl)
      step (x ∷ s) = (x ∷ s, refl)

  pub rstrip-StartsSolid : (t : Text) → StartsSolid t → StartsSolid (rstrip u.is_space t)
  unfolding rstrip
  rstrip-StartsSolid [] h = tt
  rstrip-StartsSolid (c ∷ t) h =
      let (r, r_eq) = rstrip_solid c t h in subst StartsSolid (sym r_eq) h

  rsplit_head_solid :
      (c : ℕ) (t : Text) → u.is_space c ≡ false → (head : Text) × (rsplit_head (c ∷ t) ≡ some head)
  unfolding rsplit_head
  rsplit_head_solid c t h = let (r, r_eq) = rstrip_solid c t h in (_, ap rsplit_stripped r_eq)

  solid_cut :
      (cut : Text)
      → StartsSolid cut
      → 0 < length cut
      → (r : Text) × (with_ellipsis (if any u.is_space cut then rsplit_head cut else some cut)
          ≡ some r)
  solid_cut [] h k = absurd (omega arith)
  solid_cut (c ∷ t) h k =
      let (head, head_eq) = rsplit_head_solid c t h in
      if_both (λ o. (r : Text) × (with_ellipsis o ≡ some r)) (any u.is_space (c ∷ t))
        (λ _. (_, ap with_ellipsis head_eq)) (λ _. (_, refl))

  take-StartsSolid : (n : ℕ) (t : Text) → StartsSolid t → StartsSolid (take n t)
  take-StartsSolid zero t h = tt
  take-StartsSolid (suc n) [] h = tt
  take-StartsSolid (suc n) (c ∷ t) h = h

  cut_solid :
      (text : Text) (limit : ℕ)
      → StartsSolid text
      → 0 < limit
      → (r : Text) × (truncate_at_word text limit ≡ some r)
  unfolding truncate_at_word
  cut_solid text limit h k = elim (Bool-cases (leb (length text) limit)) [
    | inl fits ↦ (text, rw fits refl)
    | inr long ↦
        let (r, r_eq) =
          solid_cut (take limit text) (take-StartsSolid limit text h)
            (ground (arith, length-take limit text)) in
        (r, rw long r_eq)
  ]

  -- A text that begins with no white space is cut without an exception, to at most the limit and the
  -- ellipsis.
  pub truncate_at_word-returns :
      (text : Text) (limit : ℕ)
      → StartsSolid text
      → 0 < limit
      → (r : Text) × (truncate_at_word text limit ≡ some r) × (length r ≤ suc limit)
  truncate_at_word-returns text limit h k =
      let (r, r_eq) = cut_solid text limit h k in
      (r, r_eq, subst (AtMost (suc limit)) r_eq (truncate_at_word-AtMost text limit).0)
