-- ===== src/Chunker/Packing.antt =====
-- The packing loop of `chunk_document` in backend/app/ingestion/chunker.py (steps 4 and 5).
pub mod Consumed
pub mod Overlap
pub mod Budget
use mathlib.Core.List.{reverse}
use docmesh.Prelude.{ℕ, zero, suc, ◌+◌, ◌-◌, List, [], ◌∷◌, ltb, leb, if◌then◌else◌, length}
use docmesh.Chunker.Oversized.{Piece}

-- `sum(u.tokens for u in units)`
abbrev pub total_tokens : List Piece → ℕ
total_tokens [] = 0
total_tokens (v ∷ vs) = v.tokens + total_tokens vs

-- `chunk_units` in its two parts: the overlap that was carried over, and the units that are new.
pub record Packed : Type 0 where
  pub carried : List Piece
  pub fresh : List Piece

abbrev pub tail_units : List Piece → List Piece
tail_units [] = []
tail_units (v ∷ vs) = vs

module _ (target : ℕ) where
  -- `while chunk_units and total + units[i].tokens > target_tokens:
  --     total -= chunk_units.pop(0).tokens`, with `next_tokens` for `units[i].tokens`.
  unfoldable pub shed : ℕ → ℕ → List Piece → ℕ × List Piece
  shed next_tokens total [] = (total, [])
  shed next_tokens total (v ∷ vs) =
      let rest = shed next_tokens (total - v.tokens) vs in
      if ltb target (total + next_tokens) then rest else (total, v ∷ vs)

  -- `while i < len(units) and total + units[i].tokens <= target_tokens`: the units that are taken,
  -- and those that are left.
  unfoldable pub fill : ℕ → List Piece → List Piece × List Piece
  fill total [] = ([], [])
  fill total (v ∷ vs) =
      let rest = fill (total + v.tokens) vs in
      if leb (total + v.tokens) target then (v ∷ rest.0, rest.1) else ([], v ∷ vs)

module _ (overlap_budget : ℕ) where
  -- `for unit in reversed(new_units[1:])`
  unfoldable pub carry : ℕ → List Piece → List Piece → List Piece
  carry suffix_tokens overlap_units [] = overlap_units
  carry suffix_tokens overlap_units (v ∷ vs) =
      let rest = carry (suffix_tokens + v.tokens) (v ∷ overlap_units) vs in
      if ltb overlap_budget (suffix_tokens + v.tokens) then overlap_units else rest

  -- The next `overlap_units`, from the units that are left and the new units of this chunk.
  unfoldable pub next_overlap : List Piece → List Piece → List Piece
  unfolding carry
  next_overlap [] new_units = []
  next_overlap (_ ∷ _) new_units = carry 0 [] (reverse (tail_units new_units))

module _ (target : ℕ) where
  -- One round of the outer loop, from the overlap and the units that are left: the chunk's units,
  abbrev pub packed : List Piece → Piece → List Piece → Packed
  packed overlap v units =
      let (total, carried) = shed target v.tokens (total_tokens overlap) overlap in
      record { carried = carried; fresh = v ∷ (fill target (total + v.tokens) units).0 }

  -- and the units that it leaves.
  abbrev pub left : List Piece → Piece → List Piece → List Piece
  left overlap v units =
      let (total, carried) = shed target v.tokens (total_tokens overlap) overlap in
      (fill target (total + v.tokens) units).1

module _ (target overlap_budget : ℕ) where
  -- `while i < len(units)`: each round consumes at least one unit, so the number of units is
  -- enough fuel.
  unfoldable pub pack_from : ℕ → List Piece → List Piece → List Packed
  unfolding shed fill next_overlap
  pack_from zero overlap units = []
  pack_from (suc fuel) overlap [] = []
  pack_from (suc fuel) overlap (v ∷ units) =
      let chunk = packed target overlap v units in
      let rest = left target overlap v units in
      chunk ∷ pack_from fuel (next_overlap overlap_budget rest chunk.fresh) rest

  unfoldable pub pack : List Piece → List Packed
  unfolding pack_from
  pack units = pack_from (length units) [] units
