-- ===== src/Chunker/Oversized/Counted.antt =====
-- The pieces of a unit are groups of its words in a row, with the tokens of these words.
use docmesh.Prelude.{
  ℕ, ◌+◌, ◌≡◌, refl, ap, ◌∙◌, Option, none, some, List, [], ◌∷◌, ◌++◌, append_assoc, map, slice,
  if_both, arith, All, ◌<◌, length,
}
use mathlib.Core.List.{flatten}
use docmesh.Text.{Text, Span}
use docmesh.Chunker.Oversized.{Piece, grow, is_full, pack_words}

abbrev pub start_of : List Span → ℕ
start_of [] = 0
start_of ((s, e) ∷ spans) = s

abbrev pub end_of : ℕ → List Span → ℕ
end_of last [] = last
end_of last ((s, e) ∷ spans) = end_of e spans

module _ (full_text : Text) (count_tokens : Text → ℕ) (page : Option ℕ) where
  -- The sum of the tokens of the words, each counted by itself.
  abbrev pub tokens_of : List Span → ℕ
  tokens_of [] = 0
  tokens_of ((s, e) ∷ spans) = count_tokens (slice full_text s e) + tokens_of spans

  -- The piece of some words in a row.
  abbrev pub piece_of : List Span → Piece
  piece_of spans = record {
    char_start = start_of spans;
    char_end = end_of 0 spans;
    page = page;
    tokens = tokens_of spans;
  }

  -- The words fall into groups, none of them empty, and the pieces are those of the groups.
  abbrev pub AreGroups : List Span → List Piece → Type 0
  AreGroups spans pieces =
      (groups : List (List Span)) × (flatten groups ≡ spans)
      × (pieces ≡ map piece_of groups)
      × All (λ (g : List Span). 0 < length g) groups

  tokens_of-snoc :
      (g : List Span) (s e : ℕ)
      → tokens_of (g ++ (s, e) ∷ []) ≡ tokens_of g + count_tokens (slice full_text s e)
  tokens_of-snoc [] s e = omega arith
  tokens_of-snoc ((s', e') ∷ g) s e = omega (arith, tokens_of-snoc g s e)

  end_of-snoc : (last : ℕ) (g : List Span) (s e : ℕ) → end_of last (g ++ (s, e) ∷ []) ≡ e
  end_of-snoc last [] s e = refl
  end_of-snoc last ((s', e') ∷ g) s e = end_of-snoc e' g s e

  -- One more word.
  grow-piece_of :
      (x : Span) (g : List Span) (s e : ℕ)
      → grow page (some (piece_of (x ∷ g))) (s, e) (count_tokens (slice full_text s e))
        ≡ piece_of ((x ∷ g) ++ (s, e) ∷ [])
  grow-piece_of (s', e') g s e =
      rw (tokens_of-snoc g s e, end_of-snoc e' g s e)
        (ap (λ n. record { char_start = s'; char_end = e; page = page; tokens = n }) (omega arith))

  single-piece_of :
      (s e : ℕ)
      → grow page none (s, e) (count_tokens (slice full_text s e)) ≡ piece_of ((s, e) ∷ [])
  single-piece_of s e =
      ap (λ n. record { char_start = s; char_end = e; page = page; tokens = n }) (omega arith)

module _ (full_text : Text) (target : ℕ) (count_tokens : Text → ℕ) (page : Option ℕ) where
  abbrev of_words : List Span → Piece
  of_words = piece_of full_text count_tokens page

  abbrev packed : Piece → List Span → List Piece
  packed p spans = pack_words full_text target count_tokens page (some p) spans

  pack_words-AreGroups :
      (x : Span) (g spans : List Span)
      → AreGroups full_text count_tokens page ((x ∷ g) ++ spans) (packed (of_words (x ∷ g)) spans)
  unfolding pack_words flatten
  pack_words-AreGroups x g [] = ((x ∷ g) ∷ [], refl, refl, (omega arith, tt))
  pack_words-AreGroups x g ((s, e) ∷ spans) =
      let w = count_tokens (slice full_text s e) in
      if_both (AreGroups full_text count_tokens page ((x ∷ g) ++ (s, e) ∷ spans))
        (is_full target (some (of_words (x ∷ g))) w)
        (λ _.
          let (groups, flat, eq, filled) = pack_words-AreGroups (s, e) [] spans in
          (
            (x ∷ g) ∷ groups,
            ap (λ l. x ∷ (g ++ l)) flat,
            ap (λ l. of_words (x ∷ g) ∷ l)
                (ap (λ p. packed p spans) (single-piece_of full_text count_tokens page s e) ∙ eq),
            (omega arith, filled),
          ))
        (λ _.
          let (groups, flat, eq, filled) = pack_words-AreGroups x (g ++ (s, e) ∷ []) spans in
          (
            groups,
            flat ∙ ap (λ l. x ∷ l) (append_assoc g ((s, e) ∷ []) spans),
            ap (λ p. packed p spans) (grow-piece_of full_text count_tokens page x g s e) ∙ eq,
            filled,
          ))

  -- The pieces of all the words.
  pub pack_all-AreGroups :
      (spans : List Span)
      → AreGroups full_text count_tokens page spans
          (pack_words full_text target count_tokens page none spans)
  unfolding pack_words flatten
  pack_all-AreGroups [] = ([], refl, refl, tt)
  pack_all-AreGroups ((s, e) ∷ spans) =
      let (groups, flat, eq, filled) = pack_words-AreGroups (s, e) [] spans in
      (
        groups,
        flat,
        ap (λ p. packed p spans) (single-piece_of full_text count_tokens page s e) ∙ eq,
        filled,
      )
