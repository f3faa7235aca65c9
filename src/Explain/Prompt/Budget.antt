-- ===== src/Explain/Prompt/Budget.antt =====
-- How many pairs stand in the prompt.
use docmesh.Prelude.{
  ℕ, zero, suc, ◌≤◌, ◌<◌, ◌≡◌, ◌⊎◌, refl, sym, ap, subst, ◌∙◌, true, false, some, List, [], ◌∷◌,
  All, take, take-All, length, ◌==◌, if_both, arith, Bool-cases, inl, inr,
}
use mathlib.Core.List.{Perm}
use docmesh.Text.{Text, Unicode}
use docmesh.Llm.{Role}
use docmesh.Llm.Truncate.{StartsSolid, truncate_at_word, truncate_at_word-returns}
use docmesh.Graph.{Scores}
use docmesh.Explain.Prompt.{
  EvidencePair, EdgeEvidence, excerpt_char_budget, max_user_message_chars, max_pairs_in_prompt,
  system_prompt, with_system, pair_text, option_map2, add_block, pair_block, pair_blocks, framed,
  user_message, is_over, fit_pairs, by_similarity, build_messages,
}
use docmesh.Explain.Prompt.Ranked.{
  IsOrder, IsDescending, by_similarity-All, by_similarity-perm, by_similarity-IsDescending,
}

module _ {W : Type 0} ⦃s : Scores W⦄ ⦃u : Unicode⦄ where
  abbrev pub IsSolid : EvidencePair W → Type 0
  IsSolid p = StartsSolid p.text_a × StartsSolid p.text_b

  pair_block-returns :
      (i : ℕ) (p : EvidencePair W) → IsSolid p → (b : Text) × (pair_block i p ≡ some b)
  unfolding pair_block
  pair_block-returns i p (solid_a, solid_b) =
      let (a, a_eq, size_a) =
        truncate_at_word-returns p.text_a excerpt_char_budget solid_a (omega arith) in
      let (b, b_eq, size_b) =
        truncate_at_word-returns p.text_b excerpt_char_budget solid_b (omega arith) in
      (
        pair_text i p.similarity a b,
        ap
              (λ o.
                option_map2 (pair_text i p.similarity) o
                  (truncate_at_word p.text_b excerpt_char_budget))
              a_eq
            ∙ ap (option_map2 (pair_text i p.similarity) (some a)) b_eq,
      )

  pair_blocks-returns :
      (i : ℕ) (ps : List (EvidencePair W))
      → All IsSolid ps
      → (bs : List Text) × (pair_blocks i ps ≡ some bs)
  unfolding pair_blocks
  pair_blocks-returns i [] h = ([], refl)
  pair_blocks-returns i (p ∷ ps) (h, hs) =
      let (b, b_eq) = pair_block-returns i p h in
      let (bs, bs_eq) = pair_blocks-returns (suc i) ps hs in
      (b ∷ bs, ap (λ o. add_block o (pair_blocks (suc i) ps)) b_eq ∙ ap (add_block (some b)) bs_eq)

  user_message-returns :
      (ev : EdgeEvidence W) (ps : List (EvidencePair W))
      → All IsSolid ps
      → (user : Text) × (user_message ev ps ≡ some user)
  unfolding user_message
  user_message-returns ev ps h =
      let (bs, bs_eq) = pair_blocks-returns 1 ps h in (_, ap (framed ev) bs_eq)

  -- The text has the most pairs, up to `n`, with which it is within the budget; if it is over the
  -- budget, it has none.
  abbrev pub IsFitted : EdgeEvidence W → List (EvidencePair W) → ℕ → Text → Type 0
  IsFitted ev pairs n user =
      (k : ℕ) × (k ≤ n)
      × (user_message ev (take k pairs) ≡ some user)
      × ((length user ≤ max_user_message_chars) ⊎ (k ≡ 0))
      × ((j : ℕ) → k < j → j ≤ n → is_over (user_message ev (take j pairs)) ≡ true)

  fit_pairs-IsFitted :
      (ev : EdgeEvidence W) (pairs : List (EvidencePair W))
      → All IsSolid pairs
      → (n : ℕ) → (user : Text) × (fit_pairs ev pairs n ≡ some user) × IsFitted ev pairs n user
  unfolding fit_pairs
  fit_pairs-IsFitted ev pairs solid zero =
      let (user, user_eq) = user_message-returns ev [] tt in
      (user, user_eq, (0, omega arith, user_eq, inr refl, λ j h k. absurd (omega arith)))
  fit_pairs-IsFitted ev pairs solid (suc n) =
      let (user, user_eq) =
        user_message-returns ev (take (suc n) pairs) (take-All IsSolid (suc n) pairs solid) in
      let (less, less_eq, (k, k_le, k_eq, within, over_k)) = fit_pairs-IsFitted ev pairs solid n in
      if_both (λ o. (user : Text) × (o ≡ some user) × IsFitted ev pairs (suc n) user)
        (is_over (user_message ev (take (suc n) pairs)))
        (λ over. (
          less,
          less_eq,
          (
            k,
            omega arith,
            k_eq,
            within,
            λ j h j_le. elim (Bool-cases (j == suc n)) [
              | inl last ↦
                  let same : suc n ≡ j = ground (arith, last) in
                  subst (λ i. is_over (user_message ev (take i pairs)) ≡ true) same over
              | inr before ↦ over_k j h (ground (arith, before))
            ],
          ),
        ))
        (λ fits. (
          user,
          user_eq,
          (
            suc n,
            omega arith,
            user_eq,
            inl (within_budget user (sym (ap is_over user_eq) ∙ fits)),
            λ j h k. absurd (omega arith),
          ),
        ))
    where
      within_budget : (t : Text) → is_over (some t) ≡ false → length t ≤ max_user_message_chars
      within_budget t h = ground (arith, h)

  -- If the texts of the evidence do not begin with white space, and the scores are ordered: the messages
  -- are built. With the pairs in the order of their similarity, the largest first, the user's message
  -- has as many of the first three as leave it within the budget; only without any pair may it be
  -- over.
  pub build_messages-IsFitted :
      (ev : EdgeEvidence W)
      → IsOrder s
      → All IsSolid ev.pairs
      → (user : Text) × (sorted : List (EvidencePair W)) × (build_messages ev
          ≡ some (
              record { role = Role.system; content = system_prompt }
              ∷ record { role = Role.user; content = user }
              ∷ []))
        × Perm sorted ev.pairs
        × IsDescending sorted
        × IsFitted ev (take 3 sorted) (length (take 3 sorted)) user
  unfolding build_messages
  build_messages-IsFitted ev order solid =
      let sorted = by_similarity ev.pairs in
      let pairs = take max_pairs_in_prompt sorted in
      let all_solid =
        take-All IsSolid max_pairs_in_prompt sorted (by_similarity-All IsSolid ev.pairs solid) in
      let (user, user_eq, fitted) = fit_pairs-IsFitted ev pairs all_solid (length pairs) in
      (
        user,
        sorted,
        ap with_system user_eq,
        by_similarity-perm ev.pairs,
        by_similarity-IsDescending order ev.pairs,
        fitted,
      )
