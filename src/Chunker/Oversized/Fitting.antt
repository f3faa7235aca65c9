-- ===== src/Chunker/Oversized/Fitting.antt =====
-- `_split_oversized`: the pieces fit the budget, stand in order, and lose no word.
use docmesh.Prelude.{
  ℕ, ◌+◌, ◌-◌, ◌≤◌, ◌<◌, ◌≡◌, ◌⊎◌, inl, inr, refl, sym, ap, ◌∙◌, subst, Bool, false, Option, none,
  some, List, [], ◌∷◌, map, slice, length, length-slice, get_elem?, get_elem?-slice, flat_map,
  Bool-cases, arith, All, All-append,
}
use docmesh.Text.{
  Text, Unicode, Span, test_at, Ordered, InSpans, Ordered-weaken, Ordered-append,
  InSpans-append_left, InSpans-append_right, words,
}
use docmesh.Text.Runs.Cover.{words-Ordered, words-InSpans}
use docmesh.Chunker.Oversized.{
  Piece, char_halves, grow, is_full, pack_words, or_unit, word_spans, split_oversized,
}
use docmesh.Chunker.Oversized.Counted.{AreGroups, pack_all-AreGroups}
use docmesh.Chunker.Oversized.Halves.{
  IsSmall, char_halves-Ordered, char_halves-InSpans, char_halves-IsSmall,
}

abbrev pub piece_span : Piece → Span
piece_span p = (p.char_start, p.char_end)

-- The piece fits the budget, or is one character.
abbrev pub IsSmallPiece : ℕ → Piece → Type 0
IsSmallPiece target p = (p.tokens ≤ target) ⊎ (p.char_end - p.char_start ≤ 1)

module _ (full_text : Text) (target : ℕ) (count_tokens : Text → ℕ) (page : Option ℕ) where
  abbrev packed_words : Option Piece → List Span → List Piece
  packed_words = pack_words full_text target count_tokens page

  pack_words-Ordered :
      (p : Piece) (hi : ℕ) (spans : List Span)
      → p.char_start < p.char_end
      → Ordered p.char_end hi spans
      → Ordered p.char_start hi (map piece_span (packed_words (some p) spans))
  unfolding pack_words
  pack_words-Ordered p hi [] h o = (omega arith, h, o)
  pack_words-Ordered p hi ((s, e) ∷ spans) h o =
      let w = count_tokens (slice full_text s e) in
      elim (Bool-cases (is_full target (some p) w)) [
        | inl full ↦ rw full (
          omega arith,
          h,
          Ordered-weaken s p.char_end hi _ o.0
              (pack_words-Ordered (grow page none (s, e) w) hi spans o.1 o.2),
        )
        | inr room ↦
            rw room (pack_words-Ordered (grow page (some p) (s, e) w) hi spans (omega arith) o.2)
      ]

  pack_words-InSpans :
      (p : Piece) (hi k : ℕ) (spans : List Span)
      → Ordered p.char_end hi spans
      → p.char_start < p.char_end
      → InSpans k (piece_span p ∷ spans)
      → InSpans k (map piece_span (packed_words (some p) spans))
  unfolding pack_words
  pack_words-InSpans p hi k [] o l h = h
  pack_words-InSpans p hi k ((s, e) ∷ spans) o l h =
      let w = count_tokens (slice full_text s e) in
      elim (Bool-cases (is_full target (some p) w)) [
        | inl full ↦ rw full (elim h [
          | inl here ↦ inl here
          | inr later ↦ inr (pack_words-InSpans (grow page none (s, e) w) hi k spans o.2 o.1 later)
        ])
        | inr room ↦ rw room (
            pack_words-InSpans (grow page (some p) (s, e) w) hi k spans o.2 (omega arith) (elim h [
              | inl here ↦ inl (omega arith)
              | inr (inl next_word) ↦ inl (omega arith)
              | inr (inr later) ↦ inr later
            ]))
      ]

  pack_words-IsSmallPiece :
      (p : Piece) (spans : List Span)
      → IsSmallPiece target p
      → All (IsSmall full_text target count_tokens) spans
      → All (IsSmallPiece target) (packed_words (some p) spans)
  unfolding pack_words
  pack_words-IsSmallPiece p [] h a = (h, tt)
  pack_words-IsSmallPiece p ((s, e) ∷ spans) h a =
      let w = count_tokens (slice full_text s e) in
      elim (Bool-cases (is_full target (some p) w)) [
        | inl full ↦ rw full (h, pack_words-IsSmallPiece (grow page none (s, e) w) spans a.0 a.1)
        | inr room ↦
            rw room
              (pack_words-IsSmallPiece (grow page (some p) (s, e) w) spans (inl (ground arith)) a.1)
      ]

  -- The same from the start of the loop, where no piece is open.
  record Packs (hi : ℕ) (k : ℕ) (pieces : List Piece) (lo : ℕ) : Type 0 where
    ordered : Ordered lo hi (map piece_span pieces)
    small : All (IsSmallPiece target) pieces
    holds : InSpans k (map piece_span pieces)

  pack_words-Packs :
      (lo hi k : ℕ) (spans : List Span)
      → Ordered lo hi spans
      → All (IsSmall full_text target count_tokens) spans
      → InSpans k spans
      → Packs hi k (packed_words none spans) lo
  unfolding pack_words
  pack_words-Packs lo hi k [] o a h = absurd h
  pack_words-Packs lo hi k ((s, e) ∷ spans) o a h =
      let w = count_tokens (slice full_text s e) in
      let p = grow page none (s, e) w in
      record {
        ordered = Ordered-weaken s lo hi _ o.0 (pack_words-Ordered p hi spans o.1 o.2);
        small = pack_words-IsSmallPiece p spans a.0 a.1;
        holds = pack_words-InSpans p hi k spans o.2 o.1 h;
      }

abbrev test : (ℕ → Bool) → Option ℕ → Bool
test p none = false
test p (some c) = p c

or_unit_same :
    (unit : Piece) (k : ℕ) (pieces : List Piece)
    → InSpans k (map piece_span pieces)
    → or_unit unit pieces ≡ pieces
or_unit_same unit k [] h = absurd h
or_unit_same unit k (p ∷ ps) h = refl

module _ (full_text : Text) (target : ℕ) (count_tokens : Text → ℕ) (base : ℕ) where
  abbrev cut : Span → List Span
  cut (s, e) = char_halves full_text target count_tokens (e - s) (base + s) (base + e)

  cut-Ordered :
      (lo hi : ℕ) (r : List Span)
      → Ordered lo hi r
      → Ordered (base + lo) (base + hi) (flat_map cut r)
  cut-Ordered lo hi [] o = omega arith
  cut-Ordered lo hi ((s, e) ∷ r) o =
      Ordered-weaken (base + s) (base + lo) (base + hi) _ (omega arith) (
        Ordered-append (base + s) (base + e) (base + hi) (cut (s, e)) _
          (char_halves-Ordered full_text target count_tokens (e - s) (base + s) (base + e)
            (omega arith))
          (cut-Ordered e hi r o.2))

  cut-InSpans : (i k : ℕ) (r : List Span) → InSpans i r → k ≡ base + i → InSpans k (flat_map cut r)
  cut-InSpans i k [] h e = absurd h
  cut-InSpans i k ((s, e) ∷ r) (inl h) q = InSpans-append_left k _ _ (
      char_halves-InSpans full_text target count_tokens (e - s) (base + s) (base + e) k
        (omega arith) (omega arith))
  cut-InSpans i k ((s, e) ∷ r) (inr h) q =
      InSpans-append_right k (cut (s, e)) _ (cut-InSpans i k r h q)

  cut-IsSmall : (r : List Span) → All (IsSmall full_text target count_tokens) (flat_map cut r)
  cut-IsSmall [] = tt
  cut-IsSmall ((s, e) ∷ r) =
      All-append _ (cut (s, e)) _
        (char_halves-IsSmall full_text target count_tokens (e - s) (base + s) (base + e)
          (omega arith))
        (cut-IsSmall r)

module _ ⦃u : Unicode⦄ (full_text : Text) (target : ℕ) (count_tokens : Text → ℕ) where
  -- What a piece list shows of a unit: the pieces are groups of the unit's words in a row, each with
  -- the sum of the tokens that are counted of its words; it stands in order within the unit, each piece
  -- fits the budget or is one character, and the character `k` lies in a piece.
  pub record Fits (unit : Piece) (k : ℕ) (pieces : List Piece) : Type 0 where
    pub counted :
        AreGroups full_text count_tokens unit.page
          (word_spans full_text target count_tokens unit)
          pieces
    pub ordered : Ordered unit.char_start unit.char_end (map piece_span pieces)
    pub small : All (IsSmallPiece target) pieces
    pub holds : InSpans k (map piece_span pieces)

  -- For a unit within the text, and a character of it that is no white space: the pieces are groups of
  -- the unit's words in a row, those over the budget cut into halves; the tokens of each, which are the
  -- sum of what is counted of its words, fit the token budget, or it is one character; the pieces stand
  -- in order within the unit, and the character lies in one of them.
  pub split_oversized-Fits :
      (unit : Piece) (k : ℕ)
      → unit.char_start ≤ k
      → k < unit.char_end
      → unit.char_end ≤ length full_text
      → test_at u.is_space full_text k ≡ false
      → Fits unit k (split_oversized full_text target count_tokens unit)
  unfolding split_oversized word_spans
  split_oversized-Fits unit k low high inside other =
      let b = unit.char_start in
      let text = slice full_text b unit.char_end in
      let size : length text ≡ unit.char_end - b = length-slice full_text b unit.char_end inside in
      let at : get_elem? text (k - b) ≡ get_elem? full_text (b + (k - b)) =
        get_elem?-slice full_text b unit.char_end (k - b) (omega arith) in
      let here : b + (k - b) ≡ k = omega arith in
      let other_here : test_at u.is_space text (k - b) ≡ false =
        ap (test u.is_space) (at ∙ ap (get_elem? full_text) here) ∙ other in
      let spans = flat_map (cut full_text target count_tokens b) (words text) in
      let ordered : Ordered b unit.char_end spans =
        subst (λ n. Ordered n unit.char_end spans) (omega arith)
          (subst (λ n. Ordered (b + 0) n spans) (omega arith)
            (cut-Ordered full_text target count_tokens b 0 (length text) (words text)
              (words-Ordered text))) in
      let holds : InSpans k spans =
        cut-InSpans full_text target count_tokens b (k - b) k (words text)
          (words-InSpans text (k - b) (omega arith) other_here) (omega arith) in
      let packs =
        pack_words-Packs full_text target count_tokens unit.page b unit.char_end k spans ordered
          (cut-IsSmall full_text target count_tokens b (words text)) holds in
      subst (Fits unit k) (sym (or_unit_same unit k _ packs.holds)) (record {
        counted = pack_all-AreGroups full_text target count_tokens unit.page spans;
        ordered = packs.ordered;
        small = packs.small;
        holds = packs.holds;
      })
