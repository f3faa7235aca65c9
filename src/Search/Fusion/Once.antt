-- ===== src/Search/Fusion/Once.antt =====
-- Each chunk that is ranked is fused once, from its best ranks, and the hits are in order.
use docmesh.Prelude.{
  ℕ, ◌≡◌, refl, sym, ap, ◌∙◌, subst, true, false, ◌||◌, List, [], ◌∷◌, All, map, if_both, arith,
}
use docmesh.Text.{Text}
use docmesh.Graph.{Scores}
use docmesh.Graph.Order.{text_lt_asym}
use docmesh.Search.Fusion.{
  FusedHit, is_present, find_rank, rank_from, by_rank, all_keys, fused_hit, is_before, insert_hit,
  sort_hits, rrf_fuse,
}
use docmesh.Search.Fusion.Ranks.{
  one_if, occurrences, best_rank, find_rank-rank_from, rank_from-Single, occurrences-all_keys,
}

abbrev pub IsAsym : {W : Type 0} → Scores W → Type 0
IsAsym {W} s = (x y : W) → s.lt x y ≡ true → s.lt y x ≡ false

module _ {W : Type 0} ⦃s : Scores W⦄ where
  abbrev pub ids : List (FusedHit W) → List Text
  ids hits = map (λ (h : FusedHit W). h.chunk_id) hits

  abbrev Follows : FusedHit W → List (FusedHit W) → Type 0
  Follows h [] = Unit
  Follows h (g ∷ r) = is_before g h ≡ false

  -- No hit stands before the one that it follows, by score and then by id.
  abbrev pub InOrder : List (FusedHit W) → Type 0
  InOrder [] = Unit
  InOrder (h ∷ r) = Follows h r × InOrder r

  is_before_asym : IsAsym s → (h g : FusedHit W) → is_before h g ≡ true → is_before g h ≡ false
  unfolding is_before
  is_before_asym asym h g before =
      ground (arith, before, asym g.fused_score h.fused_score, text_lt_asym h.chunk_id g.chunk_id)

  insert_hit-Follows :
      (g h : FusedHit W) (r : List (FusedHit W))
      → is_before h g ≡ false
      → Follows g r
      → Follows g (insert_hit h r)
  unfolding insert_hit
  insert_hit-Follows g h [] b f = b
  insert_hit-Follows g h (x ∷ r) b f = if_both (Follows g) (is_before x h) (λ _. f) (λ _. b)

  insert_hit-InOrder :
      IsAsym s → (h : FusedHit W) (r : List (FusedHit W)) → InOrder r → InOrder (insert_hit h r)
  unfolding insert_hit
  insert_hit-InOrder asym h [] o = (tt, tt)
  insert_hit-InOrder asym h (g ∷ r) (f, o) =
      if_both InOrder (is_before g h)
        (λ before. (
          insert_hit-Follows g h r (is_before_asym asym g h before) f,
          insert_hit-InOrder asym h r o,
        ))
        (λ behind. (behind, (f, o)))

  sort_hits-InOrder : IsAsym s → (r : List (FusedHit W)) → InOrder (sort_hits r)
  unfolding sort_hits
  sort_hits-InOrder asym [] = tt
  sort_hits-InOrder asym (h ∷ r) =
      insert_hit-InOrder asym h (sort_hits r) (sort_hits-InOrder asym r)

  insert_hit-All :
      (P : FusedHit W → Type 0) (h : FusedHit W) (r : List (FusedHit W))
      → P h
      → All P r
      → All P (insert_hit h r)
  unfolding insert_hit
  insert_hit-All P h [] p ps = (p, tt)
  insert_hit-All P h (g ∷ r) p (q, ps) =
      if_both (All P) (is_before g h) (λ _. (q, insert_hit-All P h r p ps)) (λ _. (p, (q, ps)))

  sort_hits-All : (P : FusedHit W → Type 0) (r : List (FusedHit W)) → All P r → All P (sort_hits r)
  unfolding sort_hits
  sort_hits-All P [] ps = tt
  sort_hits-All P (h ∷ r) (p, ps) = insert_hit-All P h (sort_hits r) p (sort_hits-All P r ps)

  occurrences-insert_hit :
      (i : Text) (h : FusedHit W) (r : List (FusedHit W))
      → occurrences i (ids (insert_hit h r)) ≡ occurrences i (ids (h ∷ r))
  unfolding insert_hit
  occurrences-insert_hit i h [] = refl
  occurrences-insert_hit i h (g ∷ r) =
      if_both (λ l. occurrences i (ids l) ≡ occurrences i (ids (h ∷ g ∷ r))) (is_before g h)
        (λ _. omega (arith, occurrences-insert_hit i h r)) (λ _. refl)

  occurrences-sort_hits :
      (i : Text) (r : List (FusedHit W)) → occurrences i (ids (sort_hits r)) ≡ occurrences i (ids r)
  unfolding sort_hits
  occurrences-sort_hits i [] = refl
  occurrences-sort_hits i (h ∷ r) =
      occurrences-insert_hit i h (sort_hits r) ∙ omega (arith, occurrences-sort_hits i r)

module _ {W : Type 0} ⦃s : Scores W⦄ (of_nat : ℕ → W) (dense sparse : List (Text × W)) (k : ℕ)
    (weight : W) where
  -- The hit of a chunk, from its best ranks.
  abbrev pub hit_at : Text → FusedHit W
  hit_at i = fused_hit of_nat k weight i (best_rank 1 i dense) (best_rank 1 i sparse)

  map-hit_at :
      (f : Text → FusedHit W)
      → ((i : Text) → f i ≡ hit_at i)
      → (is : List Text) → All (λ (h : FusedHit W). h ≡ hit_at h.chunk_id) (map f is)
  unfolding fused_hit
  map-hit_at f same [] = tt
  map-hit_at f same (i ∷ is) =
      (subst (λ (h : FusedHit W). h ≡ hit_at h.chunk_id) (sym (same i)) refl, map-hit_at f same is)

  ids-map :
      (f : Text → FusedHit W)
      → ((i : Text) → f i ≡ hit_at i)
      → (is : List Text) → ids (map f is) ≡ is
  unfolding fused_hit
  ids-map f same [] = refl
  ids-map f same (i ∷ is) = rw (same i, ids-map f same is) refl

  -- If the order of the scores is asymmetric: a chunk that stands in one of the rankings, or in both,
  -- stands in the fused list once, and others do not; each hit has the best ranks of its chunk, with
  -- their scores, and the score that is fused from them; and the hits stand by falling score, equal
  -- ones by their ids.
  pub rrf_fuse-InOrder :
      IsAsym s
      → ((i : Text)
          → occurrences i (ids (rrf_fuse of_nat dense sparse k weight))
            ≡ one_if (is_present (best_rank 1 i dense) || is_present (best_rank 1 i sparse)))
        × All (λ (h : FusedHit W). h ≡ hit_at h.chunk_id) (rrf_fuse of_nat dense sparse k weight)
        × InOrder (rrf_fuse of_nat dense sparse k weight)
  unfolding rrf_fuse by_rank
  rrf_fuse-InOrder asym =
      let d = rank_from 1 [] dense in
      let b = rank_from 1 [] sparse in
      let found_dense : (i : Text) → find_rank i d ≡ best_rank 1 i dense =
        λ i. find_rank-rank_from 1 [] i dense in
      let found_sparse : (i : Text) → find_rank i b ≡ best_rank 1 i sparse =
        λ i. find_rank-rank_from 1 [] i sparse in
      let hit : Text → FusedHit W =
        λ i. fused_hit of_nat k weight i (find_rank i d) (find_rank i b) in
      let same : (i : Text) → hit i ≡ hit_at i = λ i. rw (found_dense i, found_sparse i) refl in
      let hits = map hit (all_keys d b) in
      (
        (λ i.
            occurrences-sort_hits i hits
            ∙ ap (occurrences i) (ids-map hit same (all_keys d b))
            ∙ occurrences-all_keys d b (rank_from-Single 1 [] dense (λ j. refl))
                (rank_from-Single 1 [] sparse (λ j. refl)) i
            ∙ rw (found_dense i, found_sparse i) refl),
        sort_hits-All (λ (h : FusedHit W). h ≡ hit_at h.chunk_id) hits
            (map-hit_at hit same (all_keys d b)),
        sort_hits-InOrder asym hits,
      )
