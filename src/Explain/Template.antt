-- ===== src/Explain/Template.antt =====
-- backend/app/llm/template.py
use docmesh.Prelude.{
  suc, Option, none, some, List, [], ◌∷◌, ◌++◌, map, take, length, ◌==◌, if◌then◌else◌,
}
use docmesh.Text.{Text, codes, join}
use docmesh.Llm.Decimal.{show}
use docmesh.Graph.{Scores, SharedEntity}
use docmesh.Graph.Combiner.{SignalName}
use docmesh.Explain.Prompt.{EvidencePair, EdgeEvidence, concat}

abbrev pub template_id : Text
template_id = codes "template"

abbrev pub shared_phrase : List Text → Text
shared_phrase [] = codes "shared named entities"
shared_phrase (a ∷ []) = codes "shared references to " ++ a
shared_phrase (a ∷ b ∷ []) = concat (codes "shared references to " ∷ a ∷ codes " and " ∷ b ∷ [])
shared_phrase (a ∷ b ∷ c ∷ rest) = concat (
    codes "shared references to "
    ∷ a
    ∷ codes ", "
    ∷ b
    ∷ codes " and "
    ∷ show (suc (length rest))
    ∷ codes " "
    ∷ (if length rest == 0 then codes "other entity" else codes "other entities")
    ∷ [])

module _ {W : Type 0} ⦃s : Scores W⦄ where
  abbrev pub closest_phrase : List (EvidencePair W) → Text
  closest_phrase [] = codes "closely related passages"
  closest_phrase (p ∷ ps) = concat (
      codes "closely related passages (top pair similarity "
      ∷ s.fixed p.similarity
      ∷ codes ")"
      ∷ [])

  -- `_signal_phrase`
  abbrev pub signal_phrase : EdgeEvidence W → Text
  signal_phrase ev = elim ev.dominant_signal [
    | SignalName.semantic ↦ closest_phrase ev.pairs
    | SignalName.entity ↦ shared_phrase (map (λ (e : SharedEntity W). e.text) ev.shared_entities)
    | SignalName.topic ↦ codes "overlapping topic vocabulary"
  ]

  abbrev pub link_sentence : EdgeEvidence W → Text
  link_sentence ev = concat (
      codes "\""
      ∷ ev.doc_a
      ∷ codes "\" and \""
      ∷ ev.doc_b
      ∷ codes "\" are linked mainly by "
      ∷ signal_phrase ev
      ∷ codes "."
      ∷ [])

  abbrev pub overlap_sentence : W → Text
  overlap_sentence similarity = concat (
      codes "Their closest passages overlap with similarity " ∷ s.fixed similarity ∷ codes "." ∷ [])

  -- An empty caption is falsy, but no caption is empty.
  abbrev pub passages_sentence : Option Text → Option Text → W → Text
  passages_sentence none b similarity = overlap_sentence similarity
  passages_sentence (some a) none similarity = overlap_sentence similarity
  passages_sentence (some a) (some b) similarity = concat (
      codes "The closest passages are "
      ∷ a
      ∷ codes " of the first document and "
      ∷ b
      ∷ codes " of the second (similarity "
      ∷ s.fixed similarity
      ∷ codes ")."
      ∷ [])

  abbrev pub pairs_sentence : List (EvidencePair W) → List Text
  pairs_sentence [] = []
  pairs_sentence (p ∷ ps) = passages_sentence p.where_a p.where_b p.similarity ∷ []

  -- `_evidence_sentence`, as a list of at most one.
  abbrev pub evidence_sentence : List (SharedEntity W) → List (EvidencePair W) → List Text
  evidence_sentence [] pairs = pairs_sentence pairs
  evidence_sentence (e ∷ es) pairs =
      concat (
        codes "Both documents mention "
        ∷ join (codes ", ") (map (λ (x : SharedEntity W). x.text) (take 3 (e ∷ es)))
        ∷ codes " — \""
        ∷ e.text
        ∷ codes "\" appears "
        ∷ show e.count_a
        ∷ codes "× in the first and "
        ∷ show e.count_b
        ∷ codes "× in the second."
        ∷ [])
      ∷ []

  abbrev pub scores_sentence : EdgeEvidence W → Text
  scores_sentence ev = concat (
      codes "Signal scores: semantic "
      ∷ s.fixed ev.semantic_score
      ∷ codes ", entity "
      ∷ s.fixed ev.entity_score
      ∷ codes ", topic "
      ∷ s.fixed ev.topic_score
      ∷ codes " (combined "
      ∷ s.fixed ev.combined_score
      ∷ codes ")."
      ∷ [])

  unfoldable pub render : EdgeEvidence W → Text
  unfolding join show
  render ev = join (codes " ") (
      link_sentence ev ∷ (evidence_sentence ev.shared_entities ev.pairs ++ scores_sentence ev ∷ []))
