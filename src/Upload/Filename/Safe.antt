-- ===== src/Upload/Filename/Safe.antt =====
-- What a sanitized file name is like.
use docmesh.Prelude.{
  ℕ, zero, suc, ◌-◌, ◌≤◌, ◌<◌, ◌≡◌, refl, Bool, true, Option, none, some, List, [], ◌∷◌, map,
  filter, take, drop, slice, length, ltb, ◌==◌, if_both, All, All-append, All-imp, ◌≢◌, Bool-cases,
  inl, inr, arith, length-append, length-take,
}
use docmesh.Text.{text_in, Text, Unicode, Span, join, split, words, rstrip, rstrip_cons}
use docmesh.Upload.Filename.{
  windows_reserved, stem_of, is_printable, rpartition, rpartition_cons, truncate_at, truncate,
  or_unnamed, escape_reserved, cap_length, normalize, sanitize_filename,
}

-- The filter lets each character through.
abbrev IsPrintable : Text → Type 0
IsPrintable t = All (λ c. is_printable c ≡ true) t

filter-IsPrintable : (t : Text) → IsPrintable (filter is_printable t)
filter-IsPrintable [] = tt
filter-IsPrintable (c ∷ t) =
    if_both IsPrintable (is_printable c) (λ p. (p, filter-IsPrintable t))
      (λ _. filter-IsPrintable t)

take-IsPrintable : (n : ℕ) (t : Text) → IsPrintable t → IsPrintable (take n t)
take-IsPrintable zero t h = tt
take-IsPrintable (suc n) [] h = tt
take-IsPrintable (suc n) (c ∷ t) h = (h.0, take-IsPrintable n t h.1)

drop-IsPrintable : (n : ℕ) (t : Text) → IsPrintable t → IsPrintable (drop n t)
drop-IsPrintable zero t h = h
drop-IsPrintable (suc n) [] h = tt
drop-IsPrintable (suc n) (c ∷ t) h = drop-IsPrintable n t h.1

rstrip-IsPrintable : (p : ℕ → Bool) (t : Text) → IsPrintable t → IsPrintable (rstrip p t)
unfolding rstrip
rstrip-IsPrintable p [] h = tt
rstrip-IsPrintable p (c ∷ t) h = step (rstrip p t) (rstrip-IsPrintable p t h.1)
  where
    step : (r : Text) → IsPrintable r → IsPrintable (rstrip_cons p c r)
    step [] k = if_both IsPrintable (p c) (λ _. tt) (λ _. (h.0, tt))
    step (d ∷ r) k = (h.0, k)

join-IsPrintable : (ts : List Text) → All IsPrintable ts → IsPrintable (join (32 ∷ []) ts)
unfolding join
join-IsPrintable [] h = tt
join-IsPrintable (t ∷ []) h = h.0
join-IsPrintable (t ∷ t' ∷ ts) h = All-append _ t _ h.0 (refl, join-IsPrintable (t' ∷ ts) h.1)

cut-IsPrintable :
    (t : Text) (spans : List Span)
    → IsPrintable t
    → All IsPrintable (map (λ ((s, e) : Span). slice t s e) spans)
cut-IsPrintable t [] h = tt
cut-IsPrintable t ((s, e) ∷ spans) h =
    (take-IsPrintable (e - s) (drop s t) (drop-IsPrintable s t h), cut-IsPrintable t spans h)

abbrev Parts : Option (Text × Text) → Type 0
Parts none = Unit
Parts (some (stem, ext)) = IsPrintable stem × IsPrintable ext

rpartition-IsPrintable : (t : Text) → IsPrintable t → Parts (rpartition t)
unfolding rpartition
rpartition-IsPrintable [] h = tt
rpartition-IsPrintable (c ∷ t) h = step (rpartition t) (rpartition-IsPrintable t h.1)
  where
    step : (o : Option (Text × Text)) → Parts o → Parts (rpartition_cons c t o)
    step none k = if_both Parts (c == b'.') (λ _. (tt, h.1)) (λ _. tt)
    step (some (stem, ext)) k = ((h.0, k.0), k.1)

truncate_at-IsPrintable :
    (t : Text) (o : Option (Text × Text)) → IsPrintable t → Parts o → IsPrintable (truncate_at t o)
truncate_at-IsPrintable t none h k = take-IsPrintable 255 t h
truncate_at-IsPrintable t (some (stem, ext)) h k =
    if_both IsPrintable (ltb (length ext) 16)
      (λ _.
        All-append _ (take (255 - length ext - 1) stem) _ (take-IsPrintable _ stem k.0) (refl, k.1))
      (λ _. take-IsPrintable 255 t h)

length-truncate_at : (t : Text) (o : Option (Text × Text)) → length (truncate_at t o) ≤ 255
length-truncate_at t none = omega (arith, length-take 255 t)
length-truncate_at t (some (stem, ext)) = elim (Bool-cases (ltb (length ext) 16)) [
  | inl short ↦
      let room : length ext < 16 = ground arith in
      rw short (
        omega (
          arith,
          room,
          length-append (take (255 - length ext - 1) stem) (b'.' ∷ ext),
          length-take (255 - length ext - 1) stem,
        ))
  | inr long ↦ rw long (omega (arith, length-take 255 t))
]

length-cap_length : (t : Text) → length (cap_length t) ≤ 255
unfolding cap_length truncate
length-cap_length t = elim (Bool-cases (ltb 255 (length t))) [
  | inl long ↦ rw long (length-truncate_at t (rpartition t))
  | inr short ↦ rw short (ground arith)
]

cap_length-IsPrintable : (t : Text) → IsPrintable t → IsPrintable (cap_length t)
unfolding cap_length truncate
cap_length-IsPrintable t h =
    if_both IsPrintable (ltb 255 (length t))
      (λ _. truncate_at-IsPrintable t (rpartition t) h (rpartition-IsPrintable t h)) (λ _. h)

or_unnamed-IsSafe :
    (t : Text)
    → length t ≤ 255
    → IsPrintable t
    → (0 < length (or_unnamed t)) × (length (or_unnamed t) ≤ 255) × IsPrintable (or_unnamed t)
or_unnamed-IsSafe [] h p =
    (omega arith, omega arith, (refl, (refl, (refl, (refl, (refl, (refl, (refl, tt))))))))
or_unnamed-IsSafe (c ∷ t) h p = (omega arith, h, p)

escape_reserved-IsPrintable :
    (upper : Text → Text) (t : Text) → IsPrintable t → IsPrintable (escape_reserved upper t)
unfolding escape_reserved
escape_reserved-IsPrintable upper t h =
    if_both IsPrintable (text_in (upper (stem_of t)) windows_reserved) {x = b'_' ∷ t}
      (λ _. (refl, h)) (λ _. h)

-- No character below the space, and no DEL.
abbrev pub HasNoControl : Text → Type 0
HasNoControl t = All (λ c. (32 ≤ c) × (c ≢ 127)) t

not_127 : (c : ℕ) → is_printable c ≡ true → c ≢ 127
not_127 c h same = absurd (ground (arith, h, same))

HasNoControl-of_printable : (t : Text) → IsPrintable t → HasNoControl t
HasNoControl-of_printable t =
    All-imp (λ c. is_printable c ≡ true) (λ c. (32 ≤ c) × (c ≢ 127))
      (λ c h. (ground (arith, h), not_127 c h)) t

module _ (nt_basename posix_basename upper : Text → Text) ⦃u : Unicode⦄ where
  normalize-IsPrintable :
      (name : Text) → IsPrintable (normalize nt_basename posix_basename upper name)
  unfolding normalize split
  normalize-IsPrintable name =
      let shown = filter is_printable (posix_basename (nt_basename name)) in
      rstrip-IsPrintable _ _ (
        join-IsPrintable (split shown) (
          cut-IsPrintable shown (words shown)
            (filter-IsPrintable (posix_basename (nt_basename name)))))

  -- Whatever a client calls its file: the sanitized name is not empty, has at most 255 characters, and
  -- has no ASCII control character, neither one below the space nor DEL.
  pub sanitize_filename-HasNoControl :
      (name : Text)
      → (0 < length (sanitize_filename nt_basename posix_basename upper name))
        × (length (sanitize_filename nt_basename posix_basename upper name) ≤ 255)
        × HasNoControl (sanitize_filename nt_basename posix_basename upper name)
  unfolding sanitize_filename
  sanitize_filename-HasNoControl name =
      let plain = normalize nt_basename posix_basename upper name in
      let named = escape_reserved upper plain in
      let (some_text, short, printable) =
        or_unnamed-IsSafe (cap_length named) (length-cap_length named) (
          cap_length-IsPrintable named
            (escape_reserved-IsPrintable upper plain (normalize-IsPrintable name))) in
      (some_text, short, HasNoControl-of_printable _ printable)
