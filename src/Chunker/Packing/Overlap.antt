-- ===== src/Chunker/Packing/Overlap.antt =====
-- What a chunk carries over from the chunk before it.
use mathlib.Core.List.{reverse, reverse-reverse, reverse-cons}
use docmesh.Prelude.{
  ℕ, zero, suc, ◌+◌, ◌-◌, ◌≤◌, ◌≡◌, refl, sym, ap, ◌∙◌, List, [], ◌∷◌, ◌++◌, append-nil,
  append_assoc, ltb, length, Bool-cases, inl, inr, arith,
}
use docmesh.Chunker.Oversized.{Piece}
use docmesh.Chunker.Packing.{
  Packed, total_tokens, tail_units, shed, carry, next_overlap, packed, left, pack_from, pack,
}

abbrev pub IsSuffix : List Piece → List Piece → Type 0
IsSuffix vs us = (before : List Piece) × (us ≡ before ++ vs)

IsSuffix-trans : (us vs ws : List Piece) → IsSuffix us vs → IsSuffix vs ws → IsSuffix us ws
IsSuffix-trans us vs ws (a, e) (b, f) = (b ++ a, f ∙ ap (λ l. b ++ l) e ∙ sym (append_assoc b a us))

total_tokens-append :
    (us vs : List Piece) → total_tokens (us ++ vs) ≡ total_tokens us + total_tokens vs
total_tokens-append [] vs = omega arith
total_tokens-append (u ∷ us) vs = omega (arith, total_tokens-append us vs)

IsSuffix-le : (us vs : List Piece) → IsSuffix us vs → total_tokens us ≤ total_tokens vs
IsSuffix-le us vs (a, e) = omega (arith, ap total_tokens e, total_tokens-append a us)

module _ (target : ℕ) where
  shed-IsSuffix :
      (next_tokens total : ℕ) (vs : List Piece) → IsSuffix (shed target next_tokens total vs).1 vs
  unfolding shed
  shed-IsSuffix next_tokens total [] = ([], refl)
  shed-IsSuffix next_tokens total (v ∷ vs) = elim (Bool-cases (ltb target (total + next_tokens))) [
    | inl over ↦
        let (before, e) = shed-IsSuffix next_tokens (total - v.tokens) vs in
        rw over (v ∷ before, ap (λ l. v ∷ l) e)
    | inr fits ↦ rw fits ([], refl)
  ]

module _ (overlap_budget : ℕ) where
  -- The chunks carry over what the chunk before them allows: a suffix of its new units without
  -- the first of them, within the overlap budget.
  abbrev pub Chained : Packed → List Packed → Type 0
  Chained p [] = Unit
  Chained p (q ∷ r) =
      IsSuffix q.carried (tail_units p.fresh)
      × (total_tokens q.carried ≤ overlap_budget)
      × Chained q r

  abbrev pub WellCarried : List Packed → Type 0
  WellCarried [] = Unit
  WellCarried (p ∷ r) = (p.carried ≡ []) × Chained p r

  carry-IsSuffix :
      (suffix_tokens : ℕ) (kept vs : List Piece)
      → suffix_tokens ≡ total_tokens kept
      → suffix_tokens ≤ overlap_budget
      → IsSuffix (carry overlap_budget suffix_tokens kept vs) (reverse vs ++ kept)
        × (total_tokens (carry overlap_budget suffix_tokens kept vs) ≤ overlap_budget)
  unfolding carry
  carry-IsSuffix suffix_tokens kept [] e h = (([], refl), omega arith)
  carry-IsSuffix suffix_tokens kept (v ∷ vs) e h =
      elim (Bool-cases (ltb overlap_budget (suffix_tokens + v.tokens))) [
        | inl over ↦ rw over ((reverse (v ∷ vs), refl), omega arith)
        | inr fits ↦
            let (suffix, small) =
              carry-IsSuffix (suffix_tokens + v.tokens) (v ∷ kept) vs (omega arith)
                (ground arith) in
            rw (fits, reverse-cons v vs, append_assoc (reverse vs) (v ∷ []) kept) (suffix, small)
      ]

  next_overlap-IsSuffix :
      (left fresh : List Piece)
      → IsSuffix (next_overlap overlap_budget left fresh) (tail_units fresh)
        × (total_tokens (next_overlap overlap_budget left fresh) ≤ overlap_budget)
  unfolding next_overlap
  next_overlap-IsSuffix [] fresh =
      ((tail_units fresh, sym (append-nil (tail_units fresh))), omega arith)
  next_overlap-IsSuffix (w ∷ left) fresh =
      let (suffix, small) = carry-IsSuffix 0 [] (reverse (tail_units fresh)) refl (omega arith) in
      (
        rw (append-nil (reverse (reverse (tail_units fresh))), reverse-reverse (tail_units fresh))
            at suffix,
        small,
      )

module _ (target overlap_budget : ℕ) where
  -- A round that starts with the overlap of the chunk before.
  pack_from-Chained :
      (fuel : ℕ) (p : Packed) (overlap units : List Piece)
      → IsSuffix overlap (tail_units p.fresh)
      → total_tokens overlap ≤ overlap_budget
      → Chained overlap_budget p (pack_from target overlap_budget fuel overlap units)
  unfolding pack_from
  pack_from-Chained zero p overlap units h s = tt
  pack_from-Chained (suc fuel) p overlap [] h s = tt
  pack_from-Chained (suc fuel) p overlap (v ∷ units) h s =
      let kept = shed-IsSuffix target v.tokens (total_tokens overlap) overlap in
      let chunk = packed target overlap v units in
      let rest = left target overlap v units in
      let (suffix, small) = next_overlap-IsSuffix overlap_budget rest chunk.fresh in
      (
        IsSuffix-trans _ _ _ kept h,
        omega (arith, IsSuffix-le chunk.carried overlap kept),
        pack_from-Chained fuel chunk _ rest suffix small,
      )

  -- The first chunk of a section carries nothing over. Each later one carries over a suffix of the
  -- units that were new in the chunk before it, never all of them, and the suffix fits the overlap
  -- budget.
  pub pack-WellCarried :
      (units : List Piece) → WellCarried overlap_budget (pack target overlap_budget units)
  unfolding pack pack_from
  pack-WellCarried [] = tt
  pack-WellCarried (v ∷ units) =
      let chunk = packed target [] v units in
      let rest = left target [] v units in
      let (suffix, small) = next_overlap-IsSuffix overlap_budget rest chunk.fresh in
      (refl, pack_from-Chained (length units) chunk _ rest suffix small)
