-- ===== src/Explain/Output.antt =====
-- `postprocess` of backend/app/llm/prompt.py. `none` is an exception of `truncate_at_word`.
use docmesh.Prelude.{
  ℕ, ◌-◌, ◌≡◌, ◌≤◌, Bool, true, false, ◌&&◌, ◌||◌, Option, none, some, List, [], ◌∷◌, take, drop,
  length, last?, leb, ◌==◌, if◌then◌else◌, arith,
}
use docmesh.Text.{collapse_space, Text, Unicode, codes, strip, join}
use docmesh.Llm.Truncate.{truncate_at_word, truncate_at_word-returns}
use docmesh.Ask.Prompt.Answers.{strip-StartsSolid}

-- `"`, `'` and “, and `"`, `'` and ”
abbrev pub opens : ℕ → Bool
opens c = c == 34 || c == 39 || c == 8220

abbrev pub closes : ℕ → Bool
closes c = c == 34 || c == 39 || c == 8221

abbrev pub is_quoted : Text → Bool
is_quoted [] = false
is_quoted (c ∷ t) =
    leb 1 (length t) && opens c && elim (last? t) [ none ↦ false | some e ↦ closes e ]

abbrev pub is_end : ℕ → Bool
is_end c = c == b'.' || c == b'!' || c == b'?'

abbrev pub cons_head : ℕ → List Text → List Text
cons_head c [] = (c ∷ []) ∷ []
cons_head c (t ∷ ts) = (c ∷ t) ∷ ts

module _ ⦃u : Unicode⦄ where
  -- `_SENTENCE_SPLIT.split`: is the place within white space that separates, and does it stand behind
  -- an end of a sentence?
  unfoldable pub split_ends : Bool → Bool → Text → List Text
  split_ends gap ended [] = [] ∷ []
  split_ends gap ended (c ∷ t) =
      let skipped = split_ends true false t in
      let kept = split_ends false (is_end c) t in
      if u.is_space c && gap
      then skipped
      else (if u.is_space c && ended then [] ∷ skipped else cons_head c kept)

  unfoldable pub first_sentences : Text → Text
  unfolding split_ends collapse_space join strip
  first_sentences out =
      strip u.is_space (join (codes " ") (take 3 (split_ends false false (collapse_space out))))

  abbrev pub unquoted : Text → Text
  unquoted t = if is_quoted t then strip u.is_space (take (length t - 2) (drop 1 t)) else t

  unfoldable pub postprocess : Text → Option Text
  unfolding first_sentences strip truncate_at_word
  postprocess text = truncate_at_word (first_sentences (unquoted (strip u.is_space text))) 600

  -- Whatever the model answers, it is cut without an exception to at most 600 characters and the
  -- ellipsis.
  pub postprocess-returns :
      (text : Text) → (r : Text) × (postprocess text ≡ some r) × (length r ≤ 601)
  unfolding postprocess first_sentences
  postprocess-returns text =
      truncate_at_word-returns (first_sentences (unquoted (strip u.is_space text))) 600
        (strip-StartsSolid _) (omega arith)
