-- ===== src/Chunker/Oversized.antt =====
-- `_Unit` and `_split_oversized` of backend/app/ingestion/chunker.py.
pub mod Halves
pub mod Counted
pub mod Fitting
use docmesh.Prelude.{
  ℕ, zero, suc, ◌+◌, ◌-◌, ◌/◌, Bool, false, ◌||◌, Option, none, some, List, [], ◌∷◌, ◌++◌, ltb, leb,
  if◌then◌else◌, slice, flat_map,
}
use docmesh.Text.{Text, Unicode, Span, words}

-- One packing unit, `_Unit`: a sentence, a heading, or a piece that the word cap forced.
pub record Piece : Type 0 where
  pub char_start : ℕ
  pub char_end : ℕ
  pub page : Option ℕ
  pub tokens : ℕ

-- The piece that is open after one more word: `piece_start`, `piece_end` and `piece_tokens`.
abbrev pub grow : Option ℕ → Option Piece → Span → ℕ → Piece
grow page none (s, e) w = record { char_start = s; char_end = e; page = page; tokens = w }
grow page (some p) (s, e) w = record p { char_end = e; tokens = p.tokens + w }

-- `piece_start is not None and piece_tokens + w_tokens > target`
abbrev pub is_full : ℕ → Option Piece → ℕ → Bool
is_full target none w = false
is_full target (some p) w = ltb target (p.tokens + w)

abbrev pub flush : Option Piece → List Piece
flush none = []
flush (some p) = p ∷ []

-- `pieces or [unit]`
abbrev pub or_unit : Piece → List Piece → List Piece
or_unit unit [] = unit ∷ []
or_unit unit (p ∷ ps) = p ∷ ps

-- The document's text, the token budget and the token counter.
module _ (full_text : Text) (target : ℕ) (count_tokens : Text → ℕ) where
  -- `char_halves`; the fuel bounds the length of the span.
  unfoldable pub char_halves : ℕ → ℕ → ℕ → List Span
  char_halves zero start end = (start, end) ∷ []
  char_halves (suc fuel) start end =
      let mid = start + (end - start) / 2 in
      let halves = char_halves fuel start mid ++ char_halves fuel mid end in
      if leb (count_tokens (slice full_text start end)) target || leb (end - start) 1
      then (start, end) ∷ []
      else halves

  -- The greedy loop over the word spans.
  unfoldable pub pack_words : Option ℕ → Option Piece → List Span → List Piece
  pack_words page open_piece [] = flush open_piece
  pack_words page open_piece ((s, e) ∷ spans) =
      let w = count_tokens (slice full_text s e) in
      let closed = pack_words page (some (grow page none (s, e) w)) spans in
      let longer = pack_words page (some (grow page open_piece (s, e) w)) spans in
      if is_full target open_piece w then flush open_piece ++ closed else longer

  module _ ⦃u : Unicode⦄ where
    -- `word_spans`: the words of the unit, those over the budget cut into halves.
    unfoldable pub word_spans : Piece → List Span
    unfolding words char_halves
    word_spans unit =
        flat_map
          (λ ((s, e) : Span). char_halves (e - s) (unit.char_start + s) (unit.char_start + e))
          (words (slice full_text unit.char_start unit.char_end))

    unfoldable pub split_oversized : Piece → List Piece
    unfolding pack_words word_spans
    split_oversized unit = or_unit unit (pack_words unit.page none (word_spans unit))
