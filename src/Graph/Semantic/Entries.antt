-- ===== src/Graph/Semantic/Entries.antt =====
-- Every two documents have an entry, and nothing else does.
use docmesh.Prelude.{
  map, ℕ, ◌+◌, ◌-◌, ◌<◌, ◌≡◌, refl, sym, ap, subst, Option, some, List, [], ◌∷◌, All, All-imp,
  length, arith,
}
use mathlib.Core.List.{flatten}
use docmesh.Text.{Text}
use docmesh.Dict.{Dict, put, put-All}
use docmesh.Graph.Schemas.{Scores}
use docmesh.Graph.Build.{SemanticOverlap}
use docmesh.Graph.Entities.Keys.{EntityKey, entity_key}
use docmesh.Graph.Entities.Weighted.{Has, put-Has, put-Has_key}
use docmesh.Graph.Semantic.{
  DocVectors, NumPy, Placed, placed, stack, similarities, block_between, overlap_in,
  overlap_between, overlaps_from, overlaps_of, semantic_overlaps,
}
use docmesh.Graph.Semantic.Blocks.{IsPlaced, placed-All, block_between-eq-table}
use docmesh.Graph.Semantic.Top.{IsNumPy}
use docmesh.Graph.Semantic.Pairs.{IsAligned}
use docmesh.Graph.Semantic.Scored.{
  IsOne, IsOne-all, IsOverlap, IsEntry, AreAll, overlap_in-IsOverlap,
}

abbrev pub doc_ids : List DocVectors → List Text
doc_ids ds = map (λ (d : DocVectors). d.doc_id) ds

-- What holds of the documents that are placed.
placed-doc_id :
    (Q : Text → Type 0) (n : ℕ) (ds : List DocVectors)
    → All (λ p. Q p.doc.doc_id) (placed n ds)
    → All Q (doc_ids ds)
unfolding placed
placed-doc_id Q n [] h = tt
placed-doc_id Q n (d ∷ ds) (h, hs) = (h, placed-doc_id Q (n + length d.matrix) ds hs)

both-All :
    (P Q : DocVectors → Type 0) (ds : List DocVectors)
    → All P ds
    → All Q ds
    → All (λ d. P d × Q d) ds
both-All P Q [] p q = tt
both-All P Q (d ∷ ds) (p, ps) (q, qs) = ((p, q), both-All P Q ds ps qs)

module _ {W : Type 0} ⦃s : Scores W⦄ (np : NumPy W) (laws : IsNumPy np) (top_k : ℕ)
    (pos : 0 < top_k) (floor ceil : W) (docs : List DocVectors) where
  abbrev Fits : Placed → Type 0
  Fits p = IsPlaced (stack docs) p × (IsOne docs p.doc × IsAligned p.doc)

  abbrev sims : List (List W)
  sims = similarities np (stack docs)

  overlap_between-IsOverlap :
      (a b : Placed)
      → Fits a
      → Fits b
      → (o : SemanticOverlap W) × (overlap_between np top_k floor ceil sims a b ≡ some o)
        × IsOverlap np top_k floor ceil a.doc b.doc o
  unfolding overlap_between
  overlap_between-IsOverlap a b (at_a, (_, ok_a)) (at_b, (_, ok_b)) =
      let width : b.stop - b.start ≡ length b.doc.matrix = omega (arith, at_b.1) in
      subst
        (λ n.
          (o : SemanticOverlap W) × (overlap_in np top_k floor ceil a.doc b.doc n
              (flatten (block_between sims a b))
            ≡ some o)
          × IsOverlap np top_k floor ceil a.doc b.doc o)
        (sym width)
        (overlap_in-IsOverlap np top_k floor ceil laws pos a.doc b.doc
          (flatten (block_between sims a b)) ok_a ok_b
          (ap flatten (block_between-eq-table np (stack docs) a b at_a at_b)))

  -- Entries that are there stay.
  abbrev Grown :
      Dict (Text × Text) (SemanticOverlap W)
      → Option (Dict (Text × Text) (SemanticOverlap W))
      → (Dict (Text × Text) (SemanticOverlap W) → Type 0)
      → Type 0
  Grown out result P =
      (out' : Dict (Text × Text) (SemanticOverlap W)) × (result ≡ some out')
      × All (IsEntry np top_k floor ceil docs) out'
      × ((k : EntityKey) → Has out k → Has out' k)
      × P out'

  overlaps_from-Grown :
      (a : Placed) (bs : List Placed) (out : Dict (Text × Text) (SemanticOverlap W))
      → Fits a
      → All Fits bs
      → All (IsEntry np top_k floor ceil docs) out
      → Grown out
          (overlaps_from np top_k floor ceil sims a bs out)
          (λ out'. All (λ b. Has out' (a.doc.doc_id, b.doc.doc_id)) bs)
  unfolding overlaps_from
  overlaps_from-Grown a [] out at_a fits good = (out, refl, good, (λ k h. h), tt)
  overlaps_from-Grown a (b ∷ bs) out at_a (at_b, fits) good =
      let (o, eq, overlap) = overlap_between-IsOverlap a b at_a at_b in
      let key : EntityKey = (a.doc.doc_id, b.doc.doc_id) in
      let (out', eq', good', kept, each) = overlaps_from-Grown a bs (put key o out) at_a fits (
        put-All (IsEntry np top_k floor ceil docs) key o out
          (a.doc, b.doc, at_a.1.0, at_b.1.0, refl, overlap) good) in
      (
        out',
        rw eq eq',
        good',
        (λ k h. kept k (put-Has k key o out h)),
        (kept key (put-Has_key key o out), each),
      )

  abbrev EachLater : List Placed → Dict (Text × Text) (SemanticOverlap W) → Type 0
  EachLater [] out = Unit
  EachLater (a ∷ rest) out =
      All (λ b. Has out (a.doc.doc_id, b.doc.doc_id)) rest × EachLater rest out

  overlaps_of-Grown :
      (rest : List Placed) (out : Dict (Text × Text) (SemanticOverlap W))
      → All Fits rest
      → All (IsEntry np top_k floor ceil docs) out
      → Grown out (overlaps_of np top_k floor ceil sims rest out) (EachLater rest)
  unfolding overlaps_of
  overlaps_of-Grown [] out fits good = (out, refl, good, (λ k h. h), tt)
  overlaps_of-Grown (a ∷ rest) out (at_a, fits) good =
      let (out1, eq1, good1, kept1, each) = overlaps_from-Grown a rest out at_a fits good in
      let (out2, eq2, good2, kept2, later) = overlaps_of-Grown rest out1 fits good1 in
      (
        out2,
        rw (eq1, eq2) refl,
        good2,
        (λ k h. kept2 k (kept1 k h)),
        (
          All-imp (λ b. Has out1 (a.doc.doc_id, b.doc.doc_id))
              (λ b. Has out2 (a.doc.doc_id, b.doc.doc_id))
              (λ b h. kept2 (a.doc.doc_id, b.doc.doc_id) h) rest each,
          later,
        ),
      )

  later-AreAll :
      (n : ℕ) (ds : List DocVectors) (out : Dict (Text × Text) (SemanticOverlap W))
      → EachLater (placed n ds) out
      → AreAll (doc_ids ds) out
  unfolding placed
  later-AreAll n [] out h = tt
  later-AreAll n (d ∷ ds) out (h, hs) = (
    placed-doc_id (λ j. Has out (d.doc_id, j)) (n + length d.matrix) ds h,
    later-AreAll (n + length d.matrix) ds out hs,
  )

  -- If at least one pair is asked for, and each document has as many ids as vectors: the overlaps are
  -- computed without an IndexError. Each two documents, in their order, have one, and each one lists as
  -- many pairs as are asked for, or all that there are: a chunk of the one document, a chunk of the
  -- other, and the rounded cosine of their vectors. The raw score is the mean of these cosines, and
  -- the score its place between floor and ceil.
  pub semantic_overlaps-AreEntries :
      All IsAligned docs
      → (out : Dict (Text × Text) (SemanticOverlap W)) × (semantic_overlaps np top_k floor ceil docs
          ≡ some out)
        × All (IsEntry np top_k floor ceil docs) out
        × AreAll (doc_ids docs) out
  unfolding semantic_overlaps
  semantic_overlaps-AreEntries aligned =
      let fits =
        placed-All (λ d. IsOne docs d × IsAligned d) docs (stack docs) [] 0 refl refl
          (both-All (IsOne docs) IsAligned docs (IsOne-all docs) aligned) in
      let (out, eq, good, _, each) = overlaps_of-Grown (placed 0 docs) [] fits tt in
      (out, eq, good, later-AreAll 0 docs out each)
