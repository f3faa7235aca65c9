-- ===== src/Graph/Entities.antt =====
-- backend/app/graph/entities.py. The named entities of a text are a parameter, as are `casefold`, the
-- table of letters, `math.log` and the float of an integer.
pub mod Keys
pub mod Scorer
pub mod Weighted
pub mod Kept
pub mod Overlap
use docmesh.Prelude.{
  ℕ, ◌+◌, Bool, true, false, not, ◌&&◌, ◌||◌, Option, none, some, List, [], ◌∷◌, drop, length, ltb,
  if◌then◌else◌,
}
use docmesh.Text.{Text, Unicode, codes, text_in, strip, starts_with, collapse_space}
use docmesh.Dict.{Dict, text_key, find, put}
use docmesh.Graph.Entities.Keys.{EntityKey, entity_key}

-- What the module calls of the runtime and of spaCy.
pub record EntityTools : Type 0 where
  pub casefold : Text → Text
  pub is_letter : ℕ → Bool
  pub entities_of_text : Text → List (Text × Text)

abbrev pub count_or_0 : Option ℕ → ℕ
count_or_0 none = 0
count_or_0 (some n) = n

abbrev pub Counts : Type 0
Counts = Dict EntityKey ℕ

module _ ⦃u : Unicode⦄ (tools : EntityTools) where
  abbrev pub without_article : Text → Text
  without_article t = if starts_with (codes "the ") t then drop 4 t else t

  unfoldable pub normalize_entity : Text → Text
  unfolding collapse_space strip starts_with
  normalize_entity text = without_article (collapse_space (tools.casefold (strip u.is_space text)))

  -- `_NON_ALNUM.match`
  unfoldable pub no_letter : Text → Bool
  no_letter [] = true
  no_letter (c ∷ t) = not (tools.is_letter c) && no_letter t

  abbrev pub is_noise : Text → Bool
  is_noise [] = false
  is_noise (c ∷ t) = no_letter (c ∷ t)

  unfoldable pub count_entity : List Text → ℕ → Text × Text → Counts → Counts
  unfolding normalize_entity no_letter find put text_in
  count_entity keep_labels min_len (text, label) counts =
      let norm = normalize_entity text in
      if not (text_in label keep_labels) || (ltb (length norm) min_len || is_noise norm)
      then counts
      else put (norm, label) (count_or_0 (find (norm, label) counts) + 1) counts

  unfoldable pub count_entities : List Text → ℕ → List (Text × Text) → Counts → Counts
  unfolding count_entity
  count_entities keep_labels min_len [] counts = counts
  count_entities keep_labels min_len (e ∷ es) counts =
      count_entities keep_labels min_len es (count_entity keep_labels min_len e counts)

  unfoldable pub extract_from : List Text → ℕ → List Text → Counts → Counts
  unfolding count_entities
  extract_from keep_labels min_len [] counts = counts
  extract_from keep_labels min_len (t ∷ texts) counts =
      extract_from keep_labels min_len texts
        (count_entities keep_labels min_len (tools.entities_of_text t) counts)

  -- `EntityExtractor.extract`
  unfoldable pub extract_entities : List Text → ℕ → List Text → Counts
  unfolding extract_from
  extract_entities keep_labels min_len texts = extract_from keep_labels min_len texts []
