-- ===== src/Graph/Recompute.antt =====
-- The recompute of backend/app/services/graph_service.py with its writes, `is_stale`,
-- backend/app/storage/sql/analysis_repo.py, and the check of the graph at the start (`lifespan` of
-- backend/app/main.py). Scores and models come before the writes and touch no table.
pub mod Stale
pub mod Settled
use docmesh.Prelude.{
  ℕ, zero, suc, Bool, true, false, not, ◌||◌, Option, none, some, List, [], ◌∷◌, map, length, ◌==◌,
  ◌≡◌, refl, if◌then◌else◌,
}
use docmesh.Text.{Text, text_eq, text_in}
use docmesh.Storage.{Db, Document, DocumentStatus, list_documents}
pub use docmesh.Storage.Listed.{ids}
use docmesh.Graph.Schemas.{Scores, GraphSettings, EdgeCreate, DocumentAnalysisCreate}
use docmesh.Graph.Combiner.{ScoringFields, compute_params_hash}
use docmesh.Graph.Edges.{Edge, upsert_many}
use docmesh.Graph.Build.{Signals, build_edges, build_analyses}

pub record DocumentAnalysis (W : Type 0) : Type 0 where
  pub item : DocumentAnalysisCreate W
  pub updated_at : ℕ

-- The tables `edges` and `document_analysis`.
pub record GraphDb (W : Type 0) : Type 0 where
  pub edges : List (Edge W)
  pub analyses : List (DocumentAnalysis W)

-- The done documents, and how many there are.
unfoldable pub list_done : Db → List Document × ℕ
unfolding list_documents
list_done db = list_documents 0 10000 (some DocumentStatus.done) db

module _ {W : Type 0} where
  unfoldable pub delete_all : GraphDb W → GraphDb W
  delete_all st = record st { edges = [] }

  abbrev pub new_analysis : ℕ → DocumentAnalysisCreate W → DocumentAnalysis W
  new_analysis now item = record { item = item; updated_at = now }

  unfoldable pub replace_all : ℕ → List (DocumentAnalysisCreate W) → GraphDb W → GraphDb W
  replace_all now items st = record st { analyses = map (new_analysis now) items }

  -- Is an analysis of another config, or of a document that is not done?
  unfoldable pub any_off : Text → List Text → List (DocumentAnalysis W) → Bool
  unfolding text_in
  any_off current done_ids [] = false
  any_off current done_ids (a ∷ rest) =
      (not (text_eq a.item.params_hash current) || not (text_in a.item.document_id done_ids))
      || any_off current done_ids rest

  unfoldable pub is_stale_for : Text → List Document × ℕ → GraphDb W → Bool
  unfolding any_off
  is_stale_for current (done_docs, done_count) st =
      if done_count == 0
      then false
      else (if not (length st.analyses == done_count)
          then true
          else any_off current (ids done_docs) st.analyses)

  unfoldable pub is_stale : (ScoringFields W → Text) → GraphSettings W → Db → GraphDb W → Bool
  unfolding compute_params_hash is_stale_for list_done
  is_stale digest g db st = is_stale_for (compute_params_hash digest g) (list_done db) st

  abbrev pub with_edges : GraphDb W → Option (List (Edge W)) → Option (GraphDb W)
  with_edges st none = none
  with_edges st (some rows) = some (record st { edges = rows })

  unfoldable pub write_edges : ℕ → List (EdgeCreate W) → GraphDb W → Option (GraphDb W)
  unfolding upsert_many
  write_edges now edges st = with_edges st (upsert_many now edges st.edges)

  abbrev pub last_writes :
      ℕ → List (DocumentAnalysisCreate W) → List (GraphDb W → Option (GraphDb W))
  last_writes now analyses = (λ st. some (replace_all now analyses st)) ∷ []

  -- The three writes, each a transaction, in order.
  unfoldable pub writes :
      ℕ
      → List (EdgeCreate W)
      → List (DocumentAnalysisCreate W)
      → List (GraphDb W → Option (GraphDb W))
  unfolding delete_all write_edges replace_all
  writes now edges analyses =
      (λ st. some (delete_all st)) ∷ write_edges now edges ∷ last_writes now analyses

  -- A run of the writes that stops behind `n` of them, or at one that raises: did it get to the end,
  -- and what do the tables hold?
  unfoldable pub run : ℕ → List (GraphDb W → Option (GraphDb W)) → GraphDb W → Bool × GraphDb W
  run n [] st = (true, st)
  run zero (w ∷ ws) st = (false, st)
  run (suc n) (w ∷ ws) st = elim (w st) [ none ↦ (false, st) | some st' ↦ run n ws st' ]

  pub run-done :
      (n : ℕ) (w : GraphDb W → Option (GraphDb W)) (ws : List (GraphDb W → Option (GraphDb W)))
      → (st st' : GraphDb W) → w st ≡ some st'
      → run (suc n) (w ∷ ws) st ≡ run n ws st'
  unfolding run
  run-done n w ws st st' e = rw (e, run) refl

  pub run-raised :
      (n : ℕ) (w : GraphDb W → Option (GraphDb W)) (ws : List (GraphDb W → Option (GraphDb W)))
      → (st : GraphDb W) → w st ≡ none
      → run (suc n) (w ∷ ws) st ≡ (false, st)
  unfolding run
  run-raised n w ws st e = rw (e, run) refl

module _ {W : Type 0} ⦃s : Scores W⦄ (digest : ScoringFields W → Text) (g : GraphSettings W)
    (signals : Signals W) where
  -- `_recompute_locked`, which a crash stops behind `n` of its writes.
  unfoldable pub recompute : ℕ → ℕ → Db → GraphDb W → Bool × GraphDb W
  unfolding compute_params_hash list_done build_edges build_analyses writes run
  recompute n now db st =
      let done_docs = (list_done db).0 in
      let params_hash = compute_params_hash digest g in
      run n
        (writes now (build_edges g signals params_hash done_docs)
          (build_analyses g signals params_hash done_docs))
        st

  -- The check of `lifespan` in backend/app/main.py, with the recompute that it starts.
  unfoldable pub repair_graph : ℕ → ℕ → Db → GraphDb W → Bool × GraphDb W
  unfolding is_stale recompute
  repair_graph n now db st = if is_stale digest g db st then recompute n now db st else (true, st)
