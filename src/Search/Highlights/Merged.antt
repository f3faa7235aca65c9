-- ===== src/Search/Highlights/Merged.antt =====
-- The highlights are apart, and show the matches.
use docmesh.Prelude.{
  ℕ, zero, suc, ap, sym, ◌∙◌, ◌≤◌, ◌<◌, ◌≡◌, ◌⊎◌, refl, max, Bool, true, false, ◌&&◌, ◌||◌, List,
  [], ◌∷◌, All, All-append, flat_map, take, length, length-take, leb, ltb, if_both, arith,
  Bool-cases, inl, inr,
}
use docmesh.Text.{Text, Unicode, Span}
use docmesh.Search.Highlights.{
  span_le, insert_span, sort_spans, merge_from, merge, query_terms, term_highlights,
}

-- The spans are not empty, begin at `lo` or later, and no two touch.
abbrev pub Separated : ℕ → List Span → Type 0
Separated lo [] = Unit
Separated lo ((s, e) ∷ r) = (lo ≤ s) × (s < e) × Separated (suc e) r

-- The spans are not empty, and stand by their starts.
abbrev ByStart : ℕ → List Span → Type 0
ByStart lo [] = Unit
ByStart lo ((s, e) ∷ r) = (lo ≤ s) × (s < e) × ByStart s r

abbrev pub IsSpan : Span → Type 0
IsSpan (s, e) = s < e

ByStart-weaken : (lo lo' : ℕ) (r : List Span) → lo' ≤ lo → ByStart lo r → ByStart lo' r
ByStart-weaken lo lo' [] h b = tt
ByStart-weaken lo lo' ((s, e) ∷ r) h (b, b', bs) = (omega arith, b', bs)

merge_from-Separated :
    (lo s e : ℕ) (r : List Span) → lo ≤ s → s < e → ByStart s r → Separated lo (merge_from (s, e) r)
unfolding merge_from
merge_from-Separated lo s e [] h k b = (h, k, tt)
merge_from-Separated lo s e ((s', e') ∷ r) h k (b, b', bs) =
    if_both (Separated lo) (leb s' e)
      (λ touch. merge_from-Separated lo s (max e e') r h (omega arith) (ByStart-weaken s' s r b bs))
      (λ apart. (h, k, merge_from-Separated (suc e) s' e' r (ground (arith, apart)) b' bs))

insert_span-ByStart :
    (lo s e : ℕ) (r : List Span) → lo ≤ s → s < e → ByStart lo r → ByStart lo (insert_span (s, e) r)
unfolding insert_span
insert_span-ByStart lo s e [] h k b = (h, k, tt)
insert_span-ByStart lo s e ((s', e') ∷ r) h k (b, b', bs) =
    elim (Bool-cases (span_le (s, e) (s', e'))) [
      | inl before ↦ rw before (h, k, (ground (arith, before), b', bs))
      | inr behind ↦ rw behind (b, b', insert_span-ByStart s' s e r (ground (arith, behind)) k bs)
    ]

sort_spans-ByStart : (r : List Span) → All IsSpan r → ByStart 0 (sort_spans r)
unfolding sort_spans
sort_spans-ByStart [] h = tt
sort_spans-ByStart ((s, e) ∷ r) (h, hs) =
    insert_span-ByStart 0 s e (sort_spans r) (omega arith) h (sort_spans-ByStart r hs)

merge-Separated : (r : List Span) → ByStart 0 r → Separated 0 (merge r)
unfolding merge
merge-Separated [] b = tt
merge-Separated ((s, e) ∷ r) (b, b', bs) = merge_from-Separated 0 s e r b b' bs

-- Does the index lie in one of the spans?
abbrev pub covers : ℕ → List Span → Bool
covers i [] = false
covers i ((s, e) ∷ r) = (leb s i && ltb i e) || covers i r

merge_from-covers :
    (i s e : ℕ) (r : List Span)
    → s < e
    → ByStart s r
    → covers i (merge_from (s, e) r) ≡ covers i ((s, e) ∷ r)
unfolding merge_from
merge_from-covers i s e [] k b = refl
merge_from-covers i s e ((s', e') ∷ r) k (b, b', bs) =
    if_both (λ l. covers i l ≡ covers i ((s, e) ∷ (s', e') ∷ r)) (leb s' e)
      (λ touch.
        merge_from-covers i s (max e e') r (omega arith) (ByStart-weaken s' s r b bs)
        ∙ ground (arith, touch, b, b'))
      (λ apart. ground (arith, merge_from-covers i s' e' r b' bs))

insert_span-covers :
    (i : ℕ) (a : Span) (r : List Span) → covers i (insert_span a r) ≡ covers i (a ∷ r)
unfolding insert_span
insert_span-covers i (s, e) [] = refl
insert_span-covers i (s, e) ((s', e') ∷ r) =
    if_both (λ l. covers i l ≡ covers i ((s, e) ∷ (s', e') ∷ r)) (span_le (s, e) (s', e'))
      (λ _. refl) (λ _. ground (arith, insert_span-covers i (s, e) r))

sort_spans-covers : (i : ℕ) (r : List Span) → covers i (sort_spans r) ≡ covers i r
unfolding sort_spans
sort_spans-covers i [] = refl
sort_spans-covers i ((s, e) ∷ r) =
    insert_span-covers i (s, e) (sort_spans r)
    ∙ ap (λ b. (leb s i && ltb i e) || b) (sort_spans-covers i r)

merge-covers : (i : ℕ) (r : List Span) → ByStart 0 r → covers i (merge r) ≡ covers i r
unfolding merge
merge-covers i [] b = refl
merge-covers i ((s, e) ∷ r) (b, b', bs) = merge_from-covers i s e r b' bs

take-Separated : (n lo : ℕ) (r : List Span) → Separated lo r → Separated lo (take n r)
take-Separated zero lo r h = tt
take-Separated (suc n) lo [] h = tt
take-Separated (suc n) lo ((s, e) ∷ r) (h, k, hs) = (h, k, take-Separated n (suc e) r hs)

covers-take : (i n : ℕ) (r : List Span) → covers i (take n r) ≡ true → covers i r ≡ true
covers-take i zero r h = cc
covers-take i (suc n) [] h = h
covers-take i (suc n) ((s, e) ∷ r) h = ground (arith, h, covers-take i n r)

take-cases : (n : ℕ) (r : List Span) → (length (take n r) ≡ n) ⊎ (take n r ≡ r)
take-cases zero r = inl refl
take-cases (suc n) [] = inr refl
take-cases (suc n) (a ∷ r) = elim (take-cases n r) [
  | inl full ↦ inl (ap suc full)
  | inr all ↦ inr (ap (λ l. a ∷ l) all)
]

module _ ⦃u : Unicode⦄ (find_term : Text → Text → List Span) where
  flat_map-IsSpan :
      ((t text : Text) → All IsSpan (find_term t text))
      → (text : Text) (ts : List Text) → All IsSpan (flat_map (λ t. find_term t text) ts)
  flat_map-IsSpan h text [] = tt
  flat_map-IsSpan h text (t ∷ ts) =
      All-append IsSpan (find_term t text) (flat_map (λ t. find_term t text) ts) (h t text)
        (flat_map-IsSpan h text ts)

  -- The matches of the terms of the query.
  abbrev pub matches : Text → Text → List Span
  matches query text = flat_map (λ t. find_term t text) (query_terms query)

  -- If no match is empty: there are at most 20 highlights, in order, and no two touch; they show only
  -- what lies in a match; and unless there are 20, they show all of it.
  pub term_highlights-Separated :
      ((t text : Text) → All IsSpan (find_term t text))
      → (query text : Text)
      → Separated 0 (term_highlights find_term query text)
        × (length (term_highlights find_term query text) ≤ 20)
        × ((i : ℕ)
            → covers i (term_highlights find_term query text) ≡ true
            → covers i (matches query text) ≡ true)
        × ((length (term_highlights find_term query text) ≡ 20)
            ⊎ ((i : ℕ)
                → covers i (term_highlights find_term query text) ≡ covers i (matches query text)))
  unfolding term_highlights
  term_highlights-Separated h query text =
      let found = matches query text in
      let sorted = sort_spans found in
      let by_start = sort_spans-ByStart found (flat_map-IsSpan h text (query_terms query)) in
      let same : (i : ℕ) → covers i (merge sorted) ≡ covers i found =
        λ i. merge-covers i sorted by_start ∙ sort_spans-covers i found in
      (
        take-Separated 20 0 (merge sorted) (merge-Separated sorted by_start),
        omega (arith, length-take 20 (merge sorted)),
        (λ i k. sym (same i) ∙ covers-take i 20 (merge sorted) k),
        elim (take-cases 20 (merge sorted)) [
          | inl full ↦ inl full
          | inr all ↦ inr (λ i. ap (covers i) all ∙ same i)
        ],
      )
