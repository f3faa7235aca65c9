-- ===== src/Search/Service/Sentences.antt =====
-- Where a text has a sentence, one is the best.
use docmesh.Prelude.{
  ◌≡◌, refl, sym, ap, ◌∙◌, Bool, true, false, Option, none, some, List, [], ◌∷◌, slice,
  if◌then◌else◌, if_both,
}
use docmesh.Text.{Text, Span}
use docmesh.Graph.{Scores}
use docmesh.Search.Service.{best_cosine, scored_span, first_span}

module _ {W : Type 0} ⦃s : Scores W⦄ where
  best_cosine-some :
      (cosine : Text → W) (text : Text) (b : W × Span) (spans : List Span)
      → (n : W × Span) × (best_cosine cosine text (some b) spans ≡ some n)
  unfolding best_cosine
  best_cosine-some cosine text b [] = (b, refl)
  best_cosine-some cosine text (y, sp) ((p, e) ∷ spans) =
      if_both (λ (o : Option (W × Span)). (n : W × Span) × (o ≡ some n))
        (s.lt y (cosine (slice text p e)))
        (λ _. best_cosine-some cosine text (cosine (slice text p e), (p, e)) spans)
        (λ _. best_cosine-some cosine text (y, sp) spans)

  best_cosine-none :
      (cosine : Text → W) (text : Text) (spans : List Span)
      → scored_span (best_cosine cosine text none spans) ≡ none
      → spans ≡ []
  unfolding best_cosine
  best_cosine-none cosine text [] h = refl
  best_cosine-none cosine text ((p, e) ∷ spans) h =
      let (n, found) = best_cosine-some cosine text (cosine (slice text p e), (p, e)) spans in
      let bad : scored_span (some n) ≡ none = ap scored_span (sym found) ∙ h in absurd cc

  pub sentence-none :
      (b : Bool) (cosine : Text → W) (text : Text) (spans : List Span)
      → (if b then scored_span (best_cosine cosine text none spans) else first_span spans) ≡ none
      → spans ≡ []
  sentence-none true cosine text spans h = best_cosine-none cosine text spans h
  sentence-none false cosine text [] h = refl
  sentence-none false cosine text (a ∷ spans) h = absurd cc
