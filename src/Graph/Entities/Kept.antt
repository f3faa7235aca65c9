-- ===== src/Graph/Entities/Kept.antt =====
-- What `EntityExtractor.extract` counts.
use docmesh.Prelude.{
  ℕ, ◌+◌, ◌≡◌, ap, ◌∙◌, Bool, true, false, not, ◌&&◌, ◌||◌, List, [], ◌∷◌, ◌++◌, filter, flat_map,
  length, ltb, leb, if◌then◌else◌, arith, Bool-cases, inl, inr,
}
use docmesh.Text.{Text, Unicode, text_in}
use docmesh.Dict.{find, put, find-put}
use docmesh.Graph.Entities.{
  EntityTools, Counts, count_or_0, is_noise, normalize_entity, count_entity, count_entities,
  extract_from, extract_entities,
}
use docmesh.Graph.Entities.Keys.{EntityKey, entity_key}

-- The count of a key, behind one more for a key.
put_one :
    (key k : EntityKey) (e : Text × Text) (counts : Counts)
    → count_or_0 (find key (put k (count_or_0 (find k counts) + 1) counts))
      ≡ count_or_0 (find key counts) + length (if entity_key.same k key then e ∷ [] else [])
put_one key k e counts = elim (Bool-cases (entity_key.same k key)) [
  | inl same ↦
      rw (find-put key k (count_or_0 (find k counts) + 1) counts, same)
        (ap (λ i. count_or_0 (find i counts) + 1) (entity_key.eq_of_same k key same))
  | inr apart ↦ rw (find-put key k (count_or_0 (find k counts) + 1) counts, apart) (omega arith)
]

module _ ⦃u : Unicode⦄ (tools : EntityTools) (keep_labels : List Text) (min_len : ℕ) where
  -- The entity has one of the labels, and its normalized text is long enough and has a letter.
  abbrev pub is_kept : Text × Text → Bool
  is_kept (text, label) =
      text_in label keep_labels
      && (leb min_len (length (normalize_entity tools text))
          && not (is_noise tools (normalize_entity tools text)))

  -- An entity that is kept, whose normalized text and label are the key.
  abbrev pub is_mention : EntityKey → Text × Text → Bool
  is_mention key (text, label) =
      is_kept (text, label) && entity_key.same (normalize_entity tools text, label) key

  abbrev pub mentions : EntityKey → List (Text × Text) → ℕ
  mentions key es = length (filter (is_mention key) es)

  mentions-append :
      (key : EntityKey) (es rest : List (Text × Text))
      → mentions key (es ++ rest) ≡ mentions key es + mentions key rest
  mentions-append key [] rest = omega arith
  mentions-append key (e ∷ es) rest = elim (Bool-cases (is_mention key e)) [
    | inl counted ↦ rw counted (omega (arith, mentions-append key es rest))
    | inr skipped ↦ rw skipped (mentions-append key es rest)
  ]

  -- One entity more.
  count_entity-eq :
      (key : EntityKey) (e : Text × Text) (counts : Counts)
      → count_or_0 (find key (count_entity tools keep_labels min_len e counts))
        ≡ count_or_0 (find key counts) + mentions key (e ∷ [])
  unfolding count_entity
  count_entity-eq key (text, label) counts =
      let norm = normalize_entity tools text in
      elim (Bool-cases (is_kept (text, label))) [
        | inl kept ↦
            let dropped : (not (text_in label keep_labels)
                  || (ltb (length norm) min_len || is_noise tools norm))
                ≡ false =
              ground arith in
            rw (dropped, kept) (put_one key (norm, label) (text, label) counts)
        | inr other ↦
            let dropped : (not (text_in label keep_labels)
                  || (ltb (length norm) min_len || is_noise tools norm))
                ≡ true =
              ground arith in
            rw (dropped, other) (omega arith)
      ]

  count_entities-eq :
      (key : EntityKey) (es : List (Text × Text)) (counts : Counts)
      → count_or_0 (find key (count_entities tools keep_labels min_len es counts))
        ≡ count_or_0 (find key counts) + mentions key es
  unfolding count_entities
  count_entities-eq key [] counts = omega arith
  count_entities-eq key (e ∷ es) counts =
      let counted = count_entity tools keep_labels min_len e counts in
      count_entities-eq key es counted
      ∙ ap (λ n. n + mentions key es) (count_entity-eq key e counts)
      ∙ omega (arith, mentions-append key (e ∷ []) es)

  extract_from-eq :
      (key : EntityKey) (texts : List Text) (counts : Counts)
      → count_or_0 (find key (extract_from tools keep_labels min_len texts counts))
        ≡ count_or_0 (find key counts) + mentions key (flat_map tools.entities_of_text texts)
  unfolding extract_from
  extract_from-eq key [] counts = omega arith
  extract_from-eq key (t ∷ texts) counts =
      let es = tools.entities_of_text t in
      let rest = flat_map tools.entities_of_text texts in
      let counted = count_entities tools keep_labels min_len es counts in
      extract_from-eq key texts counted
      ∙ omega (arith, count_entities-eq key es counts, mentions-append key es rest)

  -- The count of a key is the number of the entities of the texts that are kept, whose text is
  -- normalized to the text of the key, and whose label is the key's. An entity is kept if it has one of
  -- the labels, and its normalized text is as long as the settings ask and, unless it is empty, has a
  -- letter.
  pub find-extract_entities :
      (key : EntityKey) (texts : List Text)
      → count_or_0 (find key (extract_entities tools keep_labels min_len texts))
        ≡ mentions key (flat_map tools.entities_of_text texts)
  unfolding extract_entities find
  find-extract_entities key texts = omega (arith, extract_from-eq key texts [])
