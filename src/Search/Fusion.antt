-- ===== src/Search/Fusion.antt =====
-- backend/app/search/fusion.py. `of_nat` is the float of an integer. The keys of the two
-- rankings are a set in the source; here they stand in the order of the rankings, and are sorted
-- in the end as in the source.
pub mod Ranks
pub mod Once
use docmesh.Prelude.{
  ℕ, suc, ◌+◌, Bool, true, false, not, ◌&&◌, ◌||◌, Option, none, some, List, [], ◌∷◌, ◌++◌, map,
  filter, if◌then◌else◌,
}
use docmesh.Text.{Text, text_eq}
use docmesh.Graph.{Scores}
use docmesh.Graph.Order.{text_lt}

pub record FusedHit (W : Type 0) : Type 0 where
  pub chunk_id : Text
  pub fused_score : W
  pub dense_rank : Option ℕ
  pub dense_score : Option W
  pub bm25_rank : Option ℕ
  pub bm25_score : Option W

abbrev pub is_present : {A : Type 0} → Option A → Bool
is_present none = false
is_present (some a) = true

-- A dict from chunk ids to a rank and a score.
abbrev pub Ranks : Type 0 → Type 0
Ranks W = List (Text × (ℕ × W))

module _ {W : Type 0} where
  -- `out.get(i)`
  unfoldable pub find_rank : Text → Ranks W → Option (ℕ × W)
  unfolding text_eq
  find_rank i [] = none
  find_rank i ((j, v) ∷ d) = let rest = find_rank i d in if text_eq j i then some v else rest

  -- `out.setdefault(i, v)`
  unfoldable pub set_default : Text → ℕ × W → Ranks W → Ranks W
  unfolding text_eq
  set_default i v [] = (i, v) ∷ []
  set_default i v ((j, u) ∷ d) =
      let rest = set_default i v d in if text_eq j i then (j, u) ∷ d else (j, u) ∷ rest

  unfoldable pub rank_from : ℕ → Ranks W → List (Text × W) → Ranks W
  unfolding set_default
  rank_from rank out [] = out
  rank_from rank out ((i, score) ∷ r) = rank_from (suc rank) (set_default i (rank, score) out) r

  unfoldable pub by_rank : List (Text × W) → Ranks W
  unfolding rank_from
  by_rank ranking = rank_from 1 [] ranking

  abbrev pub keys : Ranks W → List Text
  keys d = map (λ (e : Text × (ℕ × W)). e.0) d

  -- `dense_by_id.keys() | sparse_by_id.keys()`
  unfoldable pub all_keys : Ranks W → Ranks W → List Text
  unfolding find_rank
  all_keys d s = keys d ++ filter (λ i. not (is_present (find_rank i d))) (keys s)

  abbrev pub rank_of : Option (ℕ × W) → Option ℕ
  rank_of none = none
  rank_of (some (rank, score)) = some rank

  abbrev pub raw_score_of : Option (ℕ × W) → Option W
  raw_score_of none = none
  raw_score_of (some (rank, score)) = some score

module _ {W : Type 0} ⦃s : Scores W⦄ (of_nat : ℕ → W) (k : ℕ) where
  -- `if d is not None: fused += weight / (k + d[0])`
  abbrev pub add_term : W → Option (ℕ × W) → W → W
  add_term weight none fused = fused
  add_term weight (some (rank, score)) fused = s.add fused (s.div weight (of_nat (k + rank)))

  unfoldable pub fused_hit : W → Text → Option (ℕ × W) → Option (ℕ × W) → FusedHit W
  fused_hit dense_weight i d b = record {
    chunk_id = i;
    fused_score = add_term (s.sub s.one dense_weight) b (add_term dense_weight d s.nought);
    dense_rank = rank_of d;
    dense_score = raw_score_of d;
    bm25_rank = rank_of b;
    bm25_score = raw_score_of b;
  }

module _ {W : Type 0} ⦃s : Scores W⦄ where
  -- `(-h.fused_score, h.chunk_id)`: does the first hit stand before the second?
  unfoldable pub is_before : FusedHit W → FusedHit W → Bool
  unfolding text_lt
  is_before h g =
      s.lt g.fused_score h.fused_score
      || (not (s.lt h.fused_score g.fused_score) && text_lt h.chunk_id g.chunk_id)

  unfoldable pub insert_hit : FusedHit W → List (FusedHit W) → List (FusedHit W)
  unfolding is_before
  insert_hit h [] = h ∷ []
  insert_hit h (g ∷ r) = let rest = insert_hit h r in if is_before g h then g ∷ rest else h ∷ g ∷ r

  unfoldable pub sort_hits : List (FusedHit W) → List (FusedHit W)
  unfolding insert_hit
  sort_hits [] = []
  sort_hits (h ∷ r) = insert_hit h (sort_hits r)

  unfoldable pub rrf_fuse : (ℕ → W) → List (Text × W) → List (Text × W) → ℕ → W → List (FusedHit W)
  unfolding by_rank all_keys find_rank fused_hit sort_hits
  rrf_fuse of_nat dense sparse k dense_weight =
      let dense_by_id = by_rank dense in
      let sparse_by_id = by_rank sparse in
      sort_hits (
        map
          (λ i.
            fused_hit of_nat k dense_weight i (find_rank i dense_by_id) (find_rank i sparse_by_id))
          (all_keys dense_by_id sparse_by_id))
