-- ===== src/Chunker/Sentences.antt =====
-- `split_sentences` of backend/app/ingestion/chunker.py.
pub mod Cover
use docmesh.Prelude.{
  ℕ, zero, suc, ◌+◌, ◌-◌, Bool, false, not, ◌&&◌, ◌||◌, Option, none, some, List, [], ◌∷◌, ◌++◌,
  map, ltb, ◌==◌, if◌then◌else◌, length, drop, slice, last?, filter,
}
use docmesh.Text.{Text, Unicode, Span, test_at, text_in, lstrip, strip, runs, split}

-- `_ABBREVIATIONS`
abbrev abbreviations : List Text
abbreviations =
    (b'e' ∷ b'.' ∷ b'g' ∷ [])
    ∷ (b'i' ∷ b'.' ∷ b'e' ∷ [])
    ∷ (b'e' ∷ b't' ∷ b'c' ∷ [])
    ∷ (b'v' ∷ b's' ∷ [])
    ∷ (b'c' ∷ b'f' ∷ [])
    ∷ (b'f' ∷ b'i' ∷ b'g' ∷ [])
    ∷ (b'e' ∷ b'q' ∷ [])
    ∷ (b'a' ∷ b'l' ∷ [])
    ∷ (b'd' ∷ b'r' ∷ [])
    ∷ (b'm' ∷ b'r' ∷ [])
    ∷ (b'm' ∷ b'r' ∷ b's' ∷ [])
    ∷ (b'm' ∷ b's' ∷ [])
    ∷ (b'p' ∷ b'r' ∷ b'o' ∷ b'f' ∷ [])
    ∷ (b'n' ∷ b'o' ∷ [])
    ∷ []

-- `[.!?]`
abbrev is_terminal : ℕ → Bool
is_terminal c = c == b'.' || c == b'!' || c == b'?'

abbrev is_dot : ℕ → Bool
is_dot c = c == b'.'

abbrev word_or_empty : Option Text → Text
word_or_empty none = []
word_or_empty (some w) = w

module _ ⦃u : Unicode⦄ where
  -- `_BOUNDARY_RE.finditer(text)`. The expression `[.!?]+(?=\s)` matches a maximal run of terminal
  -- characters that a white space follows: a shorter match is followed by a terminal character.
  boundary_matches : Text → List Span
  unfolding runs
  boundary_matches text = filter (λ (m : Span). test_at u.is_space text m.1) (runs is_terminal text)

  -- Initials: `len(prev_word) == 1 and prev_word.isupper()`
  abbrev is_initial : Text → Bool
  is_initial [] = false
  is_initial (c ∷ []) = u.is_upper c
  is_initial (c ∷ d ∷ t) = false

  -- `rest and rest[0].islower()`
  abbrev starts_lower : Text → Bool
  starts_lower [] = false
  starts_lower (c ∷ t) = u.is_lower c

  -- The loop body: no `continue` is taken.
  unfoldable is_boundary : Text → Span → Bool
  unfolding split text_in strip lstrip
  is_boundary text (s, e) =
      let prev_word = word_or_empty (last? (split (slice text 0 s))) in
      let stripped = strip is_dot (u.lower prev_word) in
      not (text_in stripped abbreviations)
      && not ((e - s == 1) && test_at is_dot text s && is_initial prev_word)
      && not (starts_lower (lstrip u.is_space (drop e text)))

  pub boundaries : Text → List ℕ
  unfolding boundary_matches is_boundary
  boundaries text = map (λ (m : Span). m.1) (filter (is_boundary text) (boundary_matches text))

  -- `while start < end and text[start].isspace(): start += 1`, with `end - start` rounds left.
  pub skip_space : Text → ℕ → ℕ → ℕ
  skip_space text zero start = start
  skip_space text (suc n) start =
      let rest = skip_space text n (start + 1) in
      if test_at u.is_space text start then rest else start

  -- `while trimmed_end > start and text[trimmed_end - 1].isspace(): trimmed_end -= 1`, where
  -- `trimmed_end` is `start + n`.
  pub trim_end : Text → ℕ → ℕ → ℕ
  trim_end text zero start = start
  trim_end text (suc n) start =
      let rest = trim_end text n start in
      if test_at u.is_space text (start + n) then rest else start + suc n

  -- The span from `start` to `end`, trimmed; none if it is white space only.
  pub trim_span : Text → ℕ → ℕ → List Span
  unfolding skip_space trim_end
  trim_span text start end =
      let start' = skip_space text (end - start) start in
      let trimmed_end = trim_end text (end - start') start' in
      if ltb start' trimmed_end then (start', trimmed_end) ∷ [] else []

  pub sentences_from : Text → ℕ → List ℕ → List Span
  unfolding trim_span
  sentences_from text start [] = []
  sentences_from text start (end ∷ ends) = trim_span text start end ++ sentences_from text end ends

  unfoldable pub split_sentences : Text → List Span
  unfolding sentences_from boundaries
  split_sentences text = sentences_from text 0 (boundaries text ++ length text ∷ [])
