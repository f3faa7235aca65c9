-- ===== src/Tests/Overlapping.antt =====
-- Three documents with two, one and no vectors, where each sort gives the indices backwards.
use docmesh.Prelude.{
  ℕ, suc, ◌+◌, ◌<◌, ◌≡◌, refl, ap, some, List, [], ◌∷◌, All, All-imp, length, arith,
}
use mathlib.Core.List.{flatten}
use docmesh.Text.{Text, codes, text_eq}
use docmesh.Dict.{Dict}
use docmesh.Graph.Build.{SemanticOverlap}
use docmesh.Graph.Semantic.{DocVectors, NumPy, semantic_overlaps}
use docmesh.Graph.Semantic.Top.{IsNumPy}
use docmesh.Graph.Semantic.Scored.{IsEntry, AreAll}
use docmesh.Graph.Semantic.Entries.{doc_ids, semantic_overlaps-AreEntries}
use docmesh.Tests.Samples.{hundredths}

-- 0, 1, ... below a length
abbrev indices : List ℕ → List ℕ
indices [] = []
indices (x ∷ xs) = length xs ∷ indices xs

indices-below : (xs : List ℕ) → All (λ p. p < length xs) (indices xs)
indices-below [] = tt
indices-below (x ∷ xs) = (
  omega arith,
  All-imp (λ p. p < length xs) (λ p. p < suc (length xs)) (λ p h. omega arith) (indices xs)
      (indices-below xs),
)

length-indices : (xs : List ℕ) → length (indices xs) ≡ length xs
length-indices [] = refl
length-indices (x ∷ xs) = ap suc (length-indices xs)

abbrev first_sum : List ℕ → ℕ
first_sum [] = 0
first_sum (x ∷ xs) = x + first_sum xs

abbrev pub falling : NumPy ℕ
falling = record {
  dot = λ u v. first_sum u + first_sum v;
  argpartition = λ xs kth. indices xs;
  argsort = indices;
  mean = first_sum;
}

pub falling-IsNumPy : IsNumPy falling
falling-IsNumPy = record {
  partition-valid = λ xs kth h. indices-below xs;
  length-partition = λ xs kth h. length-indices xs;
  sort-valid = indices-below;
  length-sort = length-indices;
}

abbrev docs : List DocVectors
docs =
    record {
      doc_id = codes "a";
      chunk_ids = codes "a0" ∷ codes "a1" ∷ [];
      matrix = (5 ∷ []) ∷ (3 ∷ []) ∷ [];
    }
    ∷ record { doc_id = codes "b"; chunk_ids = codes "b0" ∷ []; matrix = (2 ∷ []) ∷ [] }
    ∷ record { doc_id = codes "c"; chunk_ids = []; matrix = [] }
    ∷ []

-- One pair of "a" and "b", and nothing for "c".
three_pairs :
    semantic_overlaps falling 1 0 100 docs
    ≡ some (
        (
          (codes "a", codes "b"),
          record { score = 7; raw_mean_cosine = 7; top_pairs = (codes "a0", codes "b0", 7) ∷ [] },
        )
        ∷ ((codes "a", codes "c"), record { score = 0; raw_mean_cosine = 0; top_pairs = [] })
        ∷ ((codes "b", codes "c"), record { score = 0; raw_mean_cosine = 0; top_pairs = [] })
        ∷ [])
unfolding semantic_overlaps flatten text_eq
three_pairs = refl

semantic_overlaps-AreEntries_example :
    (out : Dict (Text × Text) (SemanticOverlap ℕ)) × (semantic_overlaps falling 1 0 100 docs
      ≡ some out)
    × All (IsEntry falling 1 0 100 docs) out
    × AreAll (doc_ids docs) out
semantic_overlaps-AreEntries_example =
    semantic_overlaps-AreEntries falling falling-IsNumPy 1 (omega arith) 0 100 docs
      (refl, (refl, (refl, tt)))
