-- ===== src/Chunker/Packing/Consumed.antt =====
-- The packing loop consumes each unit exactly once, in order.
use docmesh.Prelude.{
  ℕ, zero, suc, ◌+◌, ◌≤◌, ◌≡◌, refl, ap, ◌∙◌, List, [], ◌∷◌, ◌++◌, leb, length, flat_map,
  Bool-cases, inl, inr, arith, length-append,
}
use docmesh.Chunker.Oversized.{Piece}
use docmesh.Chunker.Packing.{Packed, total_tokens, shed, fill, pack_from, pack}

module _ (target : ℕ) where
  pub fill-append :
      (total : ℕ) (units : List Piece)
      → (fill target total units).0 ++ (fill target total units).1 ≡ units
  unfolding fill
  fill-append total [] = refl
  fill-append total (v ∷ vs) = elim (Bool-cases (leb (total + v.tokens) target)) [
    | inl fits ↦ rw (fits, fill-append (total + v.tokens) vs)
    | inr full ↦ rw full
  ]

  pub length-fill-le :
      (total : ℕ) (units : List Piece) → length (fill target total units).1 ≤ length units
  length-fill-le total units =
      let taken = (fill target total units).0 in
      let left = (fill target total units).1 in
      omega (arith, ap length (fill-append total units), length-append taken left)

module _ (target overlap_budget : ℕ) where
  pack_from-consumed :
      (fuel : ℕ) (overlap units : List Piece)
      → length units ≤ fuel
      → flat_map (λ (p : Packed). p.fresh) (pack_from target overlap_budget fuel overlap units)
        ≡ units
  unfolding pack_from
  pack_from-consumed zero overlap [] h = refl
  pack_from-consumed zero overlap (v ∷ units) h = absurd (omega arith)
  pack_from-consumed (suc fuel) overlap [] h = refl
  pack_from-consumed (suc fuel) overlap (v ∷ units) h =
      let total = (shed target v.tokens (total_tokens overlap) overlap).0 + v.tokens in
      let taken = (fill target total units).0 in
      let left = (fill target total units).1 in
      let short : length left ≤ fuel = omega (arith, length-fill-le target total units) in
      ap (λ l. v ∷ (taken ++ l)) (pack_from-consumed fuel _ left short)
      ∙ ap (λ l. v ∷ l) (fill-append target total units)

  -- The new units of the chunks, one chunk after the other, are the units of the section: each is
  -- new in exactly one chunk, and none is lost or repeated.
  pub pack-consumed :
      (units : List Piece)
      → flat_map (λ (p : Packed). p.fresh) (pack target overlap_budget units) ≡ units
  unfolding pack
  pack-consumed units = pack_from-consumed (length units) [] units (omega arith)
