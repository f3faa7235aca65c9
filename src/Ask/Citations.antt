-- ===== src/Ask/Citations.antt =====
-- `parse_citations` of backend/app/llm/qa_prompt.py.
pub mod Verified
use docmesh.Prelude.{
  ℕ, zero, suc, Bool, false, not, ◌&&◌, ◌||◌, Option, none, some, List, [], ◌∷◌, ◌++◌, map, filter,
  flat_map, length, leb, drop, ◌==◌, if◌then◌else◌,
}
use docmesh.Text.{Text, Unicode, lstrip, strip}
use docmesh.Llm.Decimal.{Digits, read_number, show}

-- What `_MARKER.sub` meets in the answer: a character that no match covers, or a match with its
-- numbers.
pub data Token : Type 0 where
  plain : ℕ → Token
  marker : List ℕ → Token

-- `[n]`
abbrev pub bracketed : ℕ → Text
bracketed n = b'[' ∷ (show n ++ b']' ∷ [])

module _ ⦃u : Unicode⦄ ⦃d : Digits⦄ where
  abbrev pub add_number : ℕ → Option (List ℕ × Text) → Option (List ℕ × Text)
  add_number n none = none
  add_number n (some (ns, rest)) = some (n ∷ ns, rest)

  -- `(?:\s*,\s*\d+)*\]`, behind a number. Each round takes a comma, so that the length of the text
  -- is enough fuel.
  unfoldable pub more_numbers : ℕ → Text → Option (List ℕ × Text)
  unfolding lstrip read_number
  more_numbers zero t = none
  more_numbers (suc fuel) [] = none
  more_numbers (suc fuel) (c ∷ t) =
      if c == b']' then some ([], t) else elim (lstrip u.is_space (c ∷ t)) [
        | [] ↦ none
        | x ∷ r ↦
            if x == b','
            then elim (read_number (lstrip u.is_space r)) [
              | none ↦ none
              | some (n, rest) ↦ add_number n (more_numbers fuel rest)
            ]
            else none
      ]

  -- `_MARKER` behind its opening bracket: the numbers, and what follows the match.
  unfoldable pub read_marker : Text → Option (List ℕ × Text)
  unfolding more_numbers read_number
  read_marker t = elim (read_number t) [
    | none ↦ none
    | some (n, rest) ↦ add_number n (more_numbers (length rest) rest)
  ]

  -- The tokens of an answer. Each takes a character, so that the length is enough fuel.
  unfoldable pub tokens : ℕ → Text → List Token
  unfolding read_marker
  tokens zero t = map plain t
  tokens (suc fuel) [] = []
  tokens (suc fuel) (c ∷ t) =
      let next = plain c ∷ tokens fuel t in
      if c == b'['
      then elim (read_marker t) [ none ↦ next | some (ns, rest) ↦ marker ns ∷ tokens fuel rest ]
      else next

abbrev pub token_numbers : Token → List ℕ
token_numbers (plain c) = []
token_numbers (marker ns) = ns

-- `n in ns`
abbrev pub member : ℕ → List ℕ → Bool
member n [] = false
member n (m ∷ ms) = n == m || member n ms

module _ (valid_max : ℕ) where
  -- `1 <= n <= valid_max`
  abbrev pub is_valid : ℕ → Bool
  is_valid n = leb 1 n && leb n valid_max

  -- `_replace`, and the characters that it does not touch.
  abbrev pub rewrite_token : Token → Text
  rewrite_token (plain c) = c ∷ []
  rewrite_token (marker ns) = flat_map bracketed (filter is_valid ns)

  -- `if n not in seen: seen.append(n)`, for the valid numbers.
  abbrev pub see : List ℕ → ℕ → List ℕ
  see seen n = if is_valid n && not (member n seen) then seen ++ n ∷ [] else seen

  unfoldable pub see_all : List ℕ → List ℕ → List ℕ
  see_all seen [] = seen
  see_all seen (n ∷ ns) = see_all (see seen n) ns

  unfoldable pub markers : List Token → List ℕ
  unfolding see_all
  markers ts = see_all [] (flat_map token_numbers ts)

-- `[ \t]` and `[.,;:!?]`
abbrev pub is_blank : ℕ → Bool
is_blank c = c == 32 || c == 9

abbrev pub is_stop : ℕ → Bool
is_stop c = c == b'.' || c == b',' || c == b';' || c == b':' || c == b'!' || c == b'?'

-- Does a stop follow, perhaps behind blanks?
unfoldable pub stops : Text → Bool
stops [] = false
stops (c ∷ t) = let later = stops t in if is_blank c then later else is_stop c

-- `re.sub(r"[ \t]+([.,;:!?])", r"\1", t)`
unfoldable pub tighten : Text → Text
unfolding stops
tighten [] = []
tighten (c ∷ t) = let rest = tighten t in if is_blank c && stops t then rest else c ∷ rest

abbrev pub starts_blank : Text → Bool
starts_blank [] = false
starts_blank (c ∷ t) = is_blank c

-- `re.sub(r"[ \t]{2,}", " ", t)`
unfoldable pub collapse : Text → Text
collapse [] = []
collapse (c ∷ t) =
    let rest = collapse t in if is_blank c && starts_blank t then 32 ∷ drop 1 rest else c ∷ rest

module _ ⦃u : Unicode⦄ ⦃d : Digits⦄ where
  -- The answer with the markers that were not verified taken out, before its white space is.
  unfoldable pub rewritten : Text → ℕ → Text
  unfolding tokens show
  rewritten answer valid_max = flat_map (rewrite_token valid_max) (tokens (length answer) answer)

  -- `parse_citations`, with `len(included)` for `valid_max`.
  unfoldable pub parse_citations : Text → ℕ → Text × List ℕ
  unfolding rewritten markers tighten collapse strip
  parse_citations answer valid_max = (
    strip u.is_space (collapse (tighten (rewritten answer valid_max))),
    markers valid_max (tokens (length answer) answer),
  )
