-- ===== src/Ask/Prompt/Included.antt =====
-- Which hits stand in the prompt.
use docmesh.Prelude.{
  ℕ, suc, ◌+◌, ◌≤◌, ◌<◌, ◌≡◌, ◌⊎◌, refl, sym, ap, subst, ◌∙◌, Option, none, some, List, [], ◌∷◌,
  map, take, take-All, length, ltb, if◌then◌else◌, if_both, All, arith, inl, inr,
}
use docmesh.Text.{Text, Unicode}
use docmesh.Llm.{Role}
use docmesh.Llm.Truncate.{truncate_at_word-returns, StartsSolid}
use docmesh.Search.{SearchHit}
use docmesh.Ask.Prompt.{
  AskSettings, QaContext, qa_system_prompt, user_question, source_header, with_header, include_hit,
  block, include, qa_context, build_qa_messages,
}

pub sum_lengths : List Text → ℕ
sum_lengths [] = 0
sum_lengths (b ∷ bs) = length b + sum_lengths bs

abbrev or_empty : Option Text → Text
or_empty none = []
or_empty (some b) = b

some-or_empty : (o : Option Text) (b : Text) → o ≡ some b → o ≡ some (or_empty o)
some-or_empty o b e = e ∙ ap (λ p. some (or_empty p)) (sym e)

module _ {W : Type 0} ⦃u : Unicode⦄ (cfg : AskSettings) where
  abbrev block_text : ℕ → SearchHit W → Text
  block_text marker hit = or_empty (block cfg marker hit)

  -- The blocks of the hits, numbered from a marker on.
  abbrev pub blocks : ℕ → List (SearchHit W) → List Text
  blocks marker [] = []
  blocks marker (hit ∷ hits) = block_text marker hit ∷ blocks (suc marker) hits

  -- `included` is the longest prefix of the hits whose blocks stay within the budget.
  abbrev pub IsLongest : ℕ → ℕ → List (SearchHit W) → List (SearchHit W) → Type 0
  IsLongest marker running hits included =
      (included ≡ take (length included) hits)
      × (running + sum_lengths (blocks marker included) ≤ cfg.context_char_budget)
      × ((included ≡ hits)
          ⊎ (cfg.context_char_budget
              < running + sum_lengths (blocks marker (take (suc (length included)) hits))))

  pub block-returns :
      0 < cfg.chunk_char_budget
      → (marker : ℕ) (hit : SearchHit W) → StartsSolid hit.text
      → block cfg marker hit ≡ some (block_text marker hit)
  unfolding block
  block-returns h marker hit solid =
      let (r, r_eq, size) = truncate_at_word-returns hit.text cfg.chunk_char_budget solid h in
      some-or_empty _ _ (ap (with_header (source_header marker hit)) r_eq)

  include-step :
      (marker running : ℕ) (hit : SearchHit W) (hits : List (SearchHit W)) (b : Text)
      → block cfg marker hit ≡ some b
      → include cfg marker running (hit ∷ hits) ≡ (
          if ltb cfg.context_char_budget (running + length b)
          then some []
          else include_hit hit b (include cfg (suc marker) (running + length b) hits))
  unfolding include
  include-step marker running hit hits b e = rw (e, include) refl

  -- What the loop gives for the hits.
  abbrev Included : ℕ → ℕ → List (SearchHit W) → Option (List (SearchHit W × Text)) → Type 0
  Included marker running hits o =
      (pairs : List (SearchHit W × Text)) × (o ≡ some pairs)
      × (map (λ p. p.1) pairs ≡ blocks marker (map (λ p. p.0) pairs))
      × IsLongest marker running hits (map (λ p. p.0) pairs)

  Included-include_hit :
      (marker running : ℕ) (hit : SearchHit W) (hits : List (SearchHit W))
      → (o : Option (List (SearchHit W × Text)))
      → Included (suc marker) (running + length (block_text marker hit)) hits o
      → Included marker running (hit ∷ hits) (include_hit hit (block_text marker hit) o)
  unfolding sum_lengths
  Included-include_hit marker running hit hits o (pairs, o_eq, texts, (prefix, fits, full)) =
      let b = block_text marker hit in
      let included = map (λ p. p.0) pairs in
      (
        (hit, b) ∷ pairs,
        rw o_eq refl,
        ap (λ l. b ∷ l) texts,
        (
          ap (λ l. hit ∷ l) prefix,
          omega arith,
          elim full [ inl all ↦ inl (ap (λ l. hit ∷ l) all) | inr over ↦ inr (omega arith) ],
        ),
      )

  include-Included :
      0 < cfg.chunk_char_budget
      → (marker running : ℕ) (hits : List (SearchHit W)) → All (λ hit. StartsSolid hit.text) hits
      → running ≤ cfg.context_char_budget
      → Included marker running hits (include cfg marker running hits)
  unfolding include sum_lengths
  include-Included h marker running [] solid fits = ([], refl, refl, (refl, omega arith, inl refl))
  include-Included h marker running (hit ∷ hits) (solid, solids) fits =
      let b = block_text marker hit in
      subst (Included marker running (hit ∷ hits))
        (sym (include-step marker running hit hits b (block-returns h marker hit solid)))
        (if_both (Included marker running (hit ∷ hits))
          (ltb cfg.context_char_budget (running + length b))
          (λ over. ([], refl, refl, (refl, omega arith, inr (ground (arith, over)))))
          (λ room. Included-include_hit marker running hit hits _ (
            include-Included h (suc marker) (running + length b) hits solids
              (ground (arith, room)))))

  -- If no hit begins with white space, and a chunk has some budget: the prompt is built, its blocks
  -- are those of the hits that it includes, numbered from 1, and these are the longest prefix of the
  -- first `top_k` hits whose blocks stay within the context's budget.
  pub build_qa_messages-IsLongest :
      (question : Text) (hits : List (SearchHit W))
      → 0 < cfg.chunk_char_budget
      → All (λ hit. StartsSolid hit.text) hits
      → (ctx : QaContext W) × (build_qa_messages cfg question hits ≡ some ctx)
        × (ctx.messages
            ≡ record { role = Role.system; content = qa_system_prompt }
              ∷ record {
                role = Role.user;
                content = user_question question (blocks 1 ctx.included);
              }
              ∷ [])
        × IsLongest 1 0 (take cfg.top_k hits) ctx.included
  unfolding build_qa_messages
  build_qa_messages-IsLongest question hits h solid =
      let (pairs, pairs_eq, texts, longest) =
        include-Included h 1 0 (take cfg.top_k hits)
          (take-All (λ hit. StartsSolid hit.text) cfg.top_k hits solid) (omega arith) in
      (_, ap (qa_context cfg question) pairs_eq, rw texts refl, longest)
