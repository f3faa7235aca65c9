-- ===== src/Ask/Prompt/Answers.antt =====
-- What `postprocess_answer` makes of a model's output.
use docmesh.Prelude.{◌≤◌, ◌≡◌, ◌&&◌, some, [], ◌∷◌, length, ◌==◌, if◌then◌else◌, if_both, arith}
use docmesh.Text.{Text, Unicode, lstrip, strip}
use docmesh.Llm.Truncate.{
  StartsSolid, lstrip-StartsSolid, rstrip-StartsSolid, truncate_at_word-returns,
}
use docmesh.Ask.Prompt.{
  is_wrapped, unwrapped, unquote, two_newlines, collapse_newlines, postprocess_answer,
}

module _ ⦃u : Unicode⦄ where
  pub strip-StartsSolid : (t : Text) → StartsSolid (strip u.is_space t)
  unfolding strip
  strip-StartsSolid t = rstrip-StartsSolid (lstrip u.is_space t) (lstrip-StartsSolid t)

  unquote-StartsSolid : (t : Text) → StartsSolid t → StartsSolid (unquote t)
  unquote-StartsSolid t h =
      if_both StartsSolid (is_wrapped t) (λ _. strip-StartsSolid (unwrapped t)) (λ _. h)

  collapse_newlines-StartsSolid : (t : Text) → StartsSolid t → StartsSolid (collapse_newlines t)
  unfolding collapse_newlines
  collapse_newlines-StartsSolid [] h = tt
  collapse_newlines-StartsSolid (c ∷ t) h = head_stays (collapse_newlines t)
    where
      head_stays :
          (rest : Text) → StartsSolid (if c == 10 && two_newlines rest then rest else c ∷ rest)
      head_stays [] = if_both StartsSolid (c == 10 && two_newlines []) (λ _. tt) (λ _. h)
      head_stays (d ∷ []) =
          if_both StartsSolid (c == 10 && two_newlines (d ∷ [])) (λ e. absurd (ground (arith, e)))
            (λ _. h)
      head_stays (d ∷ e ∷ r) =
          if_both StartsSolid (c == 10 && two_newlines (d ∷ e ∷ r))
            (λ newlines. let same : d ≡ c = ground (arith, newlines) in rw same h) (λ _. h)

  -- Whatever the model answers, it is cut without an exception to at most 3000 characters and the
  -- ellipsis.
  pub postprocess_answer-returns :
      (text : Text) → (r : Text) × (postprocess_answer text ≡ some r) × (length r ≤ 3001)
  unfolding postprocess_answer
  postprocess_answer-returns text =
      let stripped = strip u.is_space text in
      let solid = unquote-StartsSolid stripped (strip-StartsSolid text) in
      truncate_at_word-returns (collapse_newlines (unquote stripped)) 3000
        (collapse_newlines-StartsSolid (unquote stripped) solid) (omega arith)
