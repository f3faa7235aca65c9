-- ===== src/Tests/Naming.antt =====
-- The entities of two documents, where a word in capitals is an entity.
use docmesh.Prelude.{flat_map, ℕ, ◌≡◌, ◌&&◌, refl, some, List, [], ◌∷◌, All, length, min, leb}
use docmesh.Text.{Text, codes}
use docmesh.Dict.{Dict, text_key, find}
use docmesh.Graph.Build.{EntityOverlap}
use docmesh.Graph.Entities.{EntityTools, Counts, count_or_0, extract_entities}
use docmesh.Graph.Entities.Keys.{entity_key}
use docmesh.Graph.Entities.Scorer.{counts_or_empty, shared_keys, new_scorer, score}
use docmesh.Graph.Entities.Kept.{mentions, find-extract_entities}
use docmesh.Graph.Entities.Overlap.{IsCounted, score-IsCounted}
use docmesh.Tests.Samples.{ascii, hundredths}

-- Each text has three entities: two are kept, of which one is named twice.
abbrev pub tools : EntityTools
tools = record {
  casefold = λ t. t;
  is_letter = λ c. leb 97 c && leb c 122;
  entities_of_text = λ t.
      (codes "the acme", codes "ORG")
      ∷ (t, codes "ORG")
      ∷ (codes " acme ", codes "ORG")
      ∷ (codes "2024", codes "DATE")
      ∷ [];
}

abbrev labels : List Text
labels = codes "ORG" ∷ codes "DATE" ∷ []

abbrev counts : Text → Counts
counts t = extract_entities tools labels 2 (t ∷ [])

abbrev corpus : Dict Text Counts
corpus = (codes "a", counts (codes "bees")) ∷ (codes "b", counts (codes "ants")) ∷ []

two_kept :
    counts (codes "bees") ≡ ((codes "acme", codes "ORG"), 2) ∷ ((codes "bees", codes "ORG"), 1) ∷ []
unfolding extract_entities
two_kept = refl

find-extract_entities_example :
    count_or_0 (
      find
        (codes "acme", codes "ORG")
        (extract_entities tools labels 2 (codes "bees" ∷ codes "x" ∷ [])))
    ≡ mentions tools labels 2
        (codes "acme", codes "ORG")
        (flat_map tools.entities_of_text (codes "bees" ∷ codes "x" ∷ []))
find-extract_entities_example =
    find-extract_entities tools labels 2 (codes "acme", codes "ORG") (codes "bees" ∷ codes "x" ∷ [])

-- A weight is what `log` is given.
score-IsCounted_example :
    (overlap : EntityOverlap ℕ) × (score
        (codes "a")
        (codes "b")
        (new_scorer (λ x. x) (λ n. 100) corpus)
      ≡ some overlap)
    × (length overlap.shared
        ≡ min 25 (
            length (
              shared_keys
                (counts_or_empty (find (codes "a") corpus))
                (counts_or_empty (find (codes "b") corpus)))))
    × All
        (IsCounted
          (counts_or_empty (find (codes "a") corpus))
          (counts_or_empty (find (codes "b") corpus)))
        overlap.shared
score-IsCounted_example = score-IsCounted (λ x. x) (λ n. 100) corpus (codes "a") (codes "b")
