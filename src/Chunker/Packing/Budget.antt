-- ===== src/Chunker/Packing/Budget.antt =====
-- The packing loop keeps the token budget, and fills each chunk as far as the budget goes.
use docmesh.Prelude.{
  ℕ, zero, suc, ◌+◌, ◌-◌, ◌≤◌, ◌<◌, ◌≡◌, ◌⊎◌, refl, ap, subst, List, [], ◌∷◌, ltb, leb, length,
  Bool-cases, inl, inr, arith,
}
use docmesh.Chunker.Oversized.{Piece}
use docmesh.Chunker.Packing.{
  Packed, total_tokens, shed, fill, next_overlap, packed, left, pack_from, pack,
}

module _ (target : ℕ) where
  -- The tokens of the chunk's units, summed, fit the budget; or the chunk is one unit that alone
  -- is over the budget.
  abbrev pub IsWithin : Packed → Type 0
  IsWithin p =
      (total_tokens p.carried + total_tokens p.fresh ≤ target)
      ⊎ ((v : Piece) × (p.carried ≡ []) × (p.fresh ≡ v ∷ []) × (target < v.tokens))

  -- The overlap that stays, with its sum, leaves room for the next unit, or is none.
  shed_room :
      (next_tokens total : ℕ) (vs : List Piece)
      → total ≡ total_tokens vs
      → ((shed target next_tokens total vs).0 ≡ total_tokens (shed target next_tokens total vs).1)
        × (((shed target next_tokens total vs).1 ≡ [])
            ⊎ ((shed target next_tokens total vs).0 + next_tokens ≤ target))
  unfolding shed
  shed_room next_tokens total [] e = (e, inl refl)
  shed_room next_tokens total (v ∷ vs) e = elim (Bool-cases (ltb target (total + next_tokens))) [
    | inl over ↦ rw over (shed_room next_tokens (total - v.tokens) vs (omega arith))
    | inr fits ↦ rw fits (e, inr (ground arith))
  ]

  fill_room :
      (total : ℕ) (vs : List Piece)
      → total ≤ target
      → total + total_tokens (fill target total vs).0 ≤ target
  unfolding fill
  fill_room total [] h = omega arith
  fill_room total (v ∷ vs) h = elim (Bool-cases (leb (total + v.tokens) target)) [
    | inl fits ↦ rw fits (omega (arith, fill_room (total + v.tokens) vs (ground arith)))
    | inr over ↦ rw over (omega arith)
  ]

  fill_over : (total : ℕ) (vs : List Piece) → target < total → (fill target total vs).0 ≡ []
  unfolding fill
  fill_over total [] h = refl
  fill_over total (v ∷ vs) h = ground arith

  packed-IsWithin :
      (overlap : List Piece) (v : Piece) (units : List Piece)
      → IsWithin (packed target overlap v units)
  packed-IsWithin overlap v units =
      let total = (shed target v.tokens (total_tokens overlap) overlap).0 in
      let (sum, room) = shed_room v.tokens (total_tokens overlap) overlap refl in
      elim (Bool-cases (leb (total + v.tokens) target)) [
        | inl fits ↦ inl (omega (arith, fill_room (total + v.tokens) units (ground arith), sum))
        | inr over ↦ elim room [
          | inl none_kept ↦ inr (
            v,
            none_kept,
            ap (λ l. v ∷ l) (fill_over (total + v.tokens) units (ground arith)),
            ground (arith, sum, ap total_tokens none_kept),
          )
          | inr fits ↦ absurd (ground arith)
        ]
      ]

  -- What `fill` leaves begins with a unit for which there is no room.
  abbrev NoRoom : ℕ → List Piece → Type 0
  NoRoom total [] = Unit
  NoRoom total (w ∷ ws) = target < total + w.tokens

  fill-NoRoom :
      (total : ℕ) (vs : List Piece)
      → NoRoom (total + total_tokens (fill target total vs).0) (fill target total vs).1
  unfolding fill
  fill-NoRoom total [] = tt
  fill-NoRoom total (v ∷ vs) = elim (Bool-cases (leb (total + v.tokens) target)) [
    | inl fits ↦ rw fits (
        subst (λ n. NoRoom n (fill target (total + v.tokens) vs).1) (omega arith)
          (fill-NoRoom (total + v.tokens) vs))
    | inr over ↦ rw over (ground arith)
  ]

  abbrev pub first_tokens : List Piece → ℕ
  first_tokens [] = 0
  first_tokens (w ∷ ws) = w.tokens

  -- There was no room in the chunk for the first new unit of the next one.
  abbrev pub IsFilled : Packed → List Packed → Type 0
  IsFilled p [] = Unit
  IsFilled p (q ∷ r) = target < total_tokens p.carried + total_tokens p.fresh + first_tokens q.fresh

  abbrev pub Packs : List Packed → Type 0
  Packs [] = Unit
  Packs (p ∷ r) = IsWithin p × IsFilled p r × Packs r

module _ (target overlap_budget : ℕ) where
  pack_from-IsFilled :
      (p : Packed) (fuel : ℕ) (overlap rest : List Piece)
      → NoRoom target (total_tokens p.carried + total_tokens p.fresh) rest
      → IsFilled target p (pack_from target overlap_budget fuel overlap rest)
  unfolding pack_from
  pack_from-IsFilled p zero overlap rest h = tt
  pack_from-IsFilled p (suc fuel) overlap [] h = tt
  pack_from-IsFilled p (suc fuel) overlap (w ∷ ws) h = h

  packed-NoRoom :
      (overlap : List Piece) (v : Piece) (units : List Piece)
      → NoRoom target
          (total_tokens (packed target overlap v units).carried
            + total_tokens (packed target overlap v units).fresh)
          (left target overlap v units)
  packed-NoRoom overlap v units =
      let total = (shed target v.tokens (total_tokens overlap) overlap).0 in
      subst (λ n. NoRoom target n (fill target (total + v.tokens) units).1)
        (omega (arith, (shed_room target v.tokens (total_tokens overlap) overlap refl).0))
        (fill-NoRoom target (total + v.tokens) units)

  pack_from-Packs :
      (fuel : ℕ) (overlap units : List Piece)
      → Packs target (pack_from target overlap_budget fuel overlap units)
  unfolding pack_from
  pack_from-Packs zero overlap units = tt
  pack_from-Packs (suc fuel) overlap [] = tt
  pack_from-Packs (suc fuel) overlap (v ∷ units) =
      let chunk = packed target overlap v units in
      let rest = left target overlap v units in
      (
        packed-IsWithin target overlap v units,
        pack_from-IsFilled chunk fuel _ rest (packed-NoRoom overlap v units),
        pack_from-Packs fuel (next_overlap overlap_budget rest chunk.fresh) rest,
      )

  -- The units of each chunk fit the token budget together, unless the chunk is one unit that alone
  -- is over it; and no chunk but the last has room for the next new unit.
  pub pack-Packs : (units : List Piece) → Packs target (pack target overlap_budget units)
  unfolding pack
  pack-Packs units = pack_from-Packs (length units) [] units
