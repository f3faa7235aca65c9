-- ===== src/Graph/Semantic/Scored.antt =====
-- What an entry of `semantic_overlaps` says.
use docmesh.Prelude.{
  ℕ, suc, ◌*◌, ◌<◌, ◌≡◌, refl, sym, ap, ◌∙◌, subst, some, List, [], ◌∷◌, All, All-imp, map, length,
  min, get_elem?, gather, arith,
}
use mathlib.Core.List.{flatten}
use docmesh.Text.{Text}
use docmesh.Dict.{Dict}
use docmesh.Graph.Schemas.{Scores}
use docmesh.Graph.Combiner.{calibrate}
use docmesh.Graph.Build.{SemanticOverlap}
use docmesh.Graph.Entities.Keys.{entity_key}
use docmesh.Graph.Entities.Weighted.{Has}
use docmesh.Graph.Semantic.{DocVectors, NumPy, pairs_at, overlap_at, overlap_in}
use docmesh.Graph.Semantic.Blocks.{table, length-table}
use docmesh.Graph.Semantic.Top.{IsNumPy, top_of-valid}
use docmesh.Graph.Semantic.Pairs.{Passages, AreOf, IsAligned, cosine, listed, pairs_at-found}

-- The document is one of the list.
abbrev pub IsOne : List DocVectors → DocVectors → Type 0
IsOne docs d = (i : ℕ) × (get_elem? docs i ≡ some d)

pub IsOne-all : (docs : List DocVectors) → All (IsOne docs) docs
IsOne-all [] = tt
IsOne-all (d ∷ docs) = (
  (0, refl),
  All-imp (IsOne docs) (IsOne (d ∷ docs)) (λ e h. (suc h.0, h.1)) docs (IsOne-all docs),
)

module _ {V : Type 0} where
  -- Each id has an entry with each that is behind it.
  abbrev pub AreAll : List Text → Dict (Text × Text) V → Type 0
  AreAll [] out = Unit
  AreAll (i ∷ is) out = All (λ j. Has out (i, j)) is × AreAll is out

module _ {W : Type 0} ⦃s : Scores W⦄ (np : NumPy W) (top_k : ℕ) (floor ceil : W) where
  -- The mean of the cosines, and its place between floor and ceil; nought if there are none.
  abbrev pub SumsUp : List Passages → SemanticOverlap W → Type 0
  SumsUp [] o = (o.raw_mean_cosine ≡ s.nought) × (o.score ≡ s.nought)
  SumsUp (x ∷ found) o =
      (o.raw_mean_cosine ≡ np.mean (map (cosine np) (x ∷ found)))
      × (o.score ≡ calibrate o.raw_mean_cosine floor ceil)

  -- The overlap lists `top_k` pairs of passages of the two documents, or all, with their cosines.
  abbrev pub IsOverlap : DocVectors → DocVectors → SemanticOverlap W → Type 0
  IsOverlap a b o =
      (found : List Passages) × (length found ≡ min top_k (length a.matrix * length b.matrix))
      × All (AreOf a b) found
      × (o.top_pairs ≡ map (listed np) found)
      × SumsUp found o

  abbrev pub IsEntry : List DocVectors → (Text × Text) × SemanticOverlap W → Type 0
  IsEntry docs (k, o) =
      (a b : DocVectors) × IsOne docs a
      × IsOne docs b
      × (k ≡ (a.doc_id, b.doc_id))
      × IsOverlap a b o

  some-SumsUp :
      (found : List Passages) (o : SemanticOverlap W)
      → 0 < length found
      → o.raw_mean_cosine ≡ np.mean (map (cosine np) found)
      → o.score ≡ calibrate o.raw_mean_cosine floor ceil
      → SumsUp found o
  some-SumsUp [] o h raw score = absurd (omega arith)
  some-SumsUp (x ∷ found) o h raw score = (raw, score)

  module _ (laws : IsNumPy np) (pos : 0 < top_k) where
    pub overlap_in-IsOverlap :
        (a b : DocVectors) (flat : List W)
        → IsAligned a
        → IsAligned b
        → flat ≡ flatten (table np a.matrix b.matrix)
        → (o : SemanticOverlap W) × (overlap_in np top_k floor ceil a b (length b.matrix) flat
            ≡ some o)
          × IsOverlap a b o
    unfolding overlap_in overlap_at
    overlap_in-IsOverlap a b [] ok_a ok_b eq =
        let size = ap length eq ∙ length-table np a.matrix b.matrix in
        (
          record { score = s.nought; raw_mean_cosine = s.nought; top_pairs = [] },
          refl,
          ([], omega (arith, size), tt, refl, (refl, refl)),
        )
    overlap_in-IsOverlap a b (w ∷ ws) ok_a ok_b eq =
        let flat = w ∷ ws in
        let size : length flat ≡ length a.matrix * length b.matrix =
          ap length eq ∙ length-table np a.matrix b.matrix in
        let k = min top_k (length flat) in
        let (top, best, len, valid) = top_of-valid np laws flat k (omega arith) (omega arith) in
        let (found, as_many, good, cosines, pairs) =
          pairs_at-found np a b ok_a ok_b top (subst (λ n. All (λ p. p < n) top) size valid) in
        let raw = np.mean (map (cosine np) found) in
        (
          record {
            score = calibrate raw floor ceil;
            raw_mean_cosine = raw;
            top_pairs = map (listed np) found;
          },
          rw
              (
                best,
                subst (λ (l : List W). gather l top ≡ some (map (cosine np) found)) (sym eq)
                    cosines,
                subst
                    (λ (l : List W).
                      pairs_at a b (length b.matrix) l top ≡ some (map (listed np) found))
                    (sym eq) pairs,
              )
              refl,
          (
            found,
            omega (arith, as_many, len, size),
            good,
            refl,
            some-SumsUp found _ (omega (arith, as_many, len)) refl refl,
          ),
        )
