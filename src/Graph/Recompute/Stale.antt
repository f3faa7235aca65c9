-- ===== src/Graph/Recompute/Stale.antt =====
-- A recompute that does not finish leaves the staleness of the graph as it was, so that the check at the
-- start repairs a graph that was stale.
use docmesh.Prelude.{
  ℕ, zero, suc, ◌≡◌, ◌⊎◌, refl, ap, subst, sym, ◌∙◌, ◌≤◌, Bool, true, false, some, All, List, [],
  Option-cases, inl, inr,
}
use docmesh.Text.{Text}
use docmesh.Storage.{Db, Document}
use docmesh.Graph.Schemas.{Scores, GraphSettings, EdgeCreate, DocumentAnalysisCreate}
use docmesh.Graph.Combiner.{ScoringFields, compute_params_hash}
use docmesh.Graph.Edges.{Edge, new_row, upsert_many, get}
use docmesh.Graph.Build.{Signals, build_edges, build_analyses}
use docmesh.Graph.Recompute.{
  GraphDb, delete_all, with_edges, write_edges, last_writes, writes, run, run-done, run-raised,
  recompute, is_stale, is_stale_for, list_done, ids, repair_graph,
}
use docmesh.Graph.Recompute.Settled.{recompute-settles}
use docmesh.Graph.Build.EdgeSet.{IsDistinct}

module _ {W : Type 0} where
  is_stale_for-analyses :
      (current : Text) (listed : List Document × ℕ) (st st' : GraphDb W)
      → st'.analyses ≡ st.analyses
      → is_stale_for current listed st' ≡ is_stale_for current listed st
  unfolding is_stale_for
  is_stale_for-analyses current listed st st' e = rw e refl

  -- A run of the writes gets to the end, or leaves the analyses.
  abbrev KeepsAnalyses : GraphDb W → Bool × GraphDb W → Type 0
  KeepsAnalyses st r = (r.0 ≡ true) ⊎ (r.1.analyses ≡ st.analyses)

  run-KeepsAnalyses :
      (n now : ℕ) (edges : List (EdgeCreate W)) (analyses : List (DocumentAnalysisCreate W))
      → (st : GraphDb W) → KeepsAnalyses st (run n (writes now edges analyses) st)
  unfolding run writes write_edges delete_all
  run-KeepsAnalyses zero now edges analyses st = inr refl
  run-KeepsAnalyses (suc zero) now edges analyses st = inr refl
  run-KeepsAnalyses (suc (suc n)) now edges analyses st =
      let emptied = delete_all st in
      elim (Option-cases (upsert_many now edges [])) [
        | inl refused ↦
            subst (KeepsAnalyses st)
              (sym (
                run-raised n (write_edges now edges) (last_writes now analyses) emptied
                  (ap (with_edges emptied) refused)))
              (inr refl)
        | inr (rows, done) ↦
            subst (KeepsAnalyses st)
              (sym (
                run-done n (write_edges now edges) (last_writes now analyses) emptied
                  (record st { edges = rows }) (ap (with_edges emptied) done)))
              (last_write n rows)
      ]
    where
      last_write :
          (n : ℕ) (rows : List (Edge W))
          → KeepsAnalyses st (run n (last_writes now analyses) (record st { edges = rows }))
      last_write zero rows = inr refl
      last_write (suc n) rows = inl refl

module _ {W : Type 0} ⦃s : Scores W⦄ (digest : ScoringFields W → Text) (g : GraphSettings W)
    (signals : Signals W) where
  -- Wherever a recompute stops, behind any of its writes or because one raises: it is finished, or
  -- the graph is stale afterwards exactly if it was before.
  recompute-stays_stale :
      (n now : ℕ) (db : Db) (st : GraphDb W)
      → ((recompute digest g signals n now db st).0 ≡ true)
        ⊎ (is_stale digest g db (recompute digest g signals n now db st).1
            ≡ is_stale digest g db st)
  unfolding recompute is_stale
  recompute-stays_stale n now db st =
      let params_hash = compute_params_hash digest g in
      let docs = (list_done db).0 in
      elim (run-KeepsAnalyses n now (build_edges g signals params_hash docs)
        (build_analyses g signals params_hash docs) st) [
          | inl finished ↦ inl finished
          | inr kept ↦
              let st' = (recompute digest g signals n now db st).1 in
              inr (is_stale_for-analyses params_hash (list_done db) st st' kept)
        ]

  -- Of at most ten thousand done documents with distinct ids: where the graph is stale, and a recompute
  -- is stopped behind any of its writes, or because one raises, the graph stays stale. The check at the
  -- start then recomputes it, and if nothing crashes it finishes; the graph is not stale then, and each
  -- edge that was built is found by its documents, in either order.
  pub recompute-repair_graph :
      (n m now later : ℕ) (db : Db) (st : GraphDb W)
      → (list_done db).1 ≤ 10000
      → IsDistinct (ids (list_done db).0)
      → is_stale digest g db st ≡ true
      → (recompute digest g signals n now db st).0 ≡ false
      → let stopped = (recompute digest g signals n now db st).1 in
        let r = repair_graph digest g signals (suc (suc (suc m))) later db stopped in
        (is_stale digest g db stopped ≡ true)
        × (r.0 ≡ true)
        × (is_stale digest g db r.1 ≡ false)
        × All
            (λ (e : EdgeCreate W).
              (get e.source_doc_id e.target_doc_id r.1.edges ≡ some (new_row later e))
              × (get e.target_doc_id e.source_doc_id r.1.edges ≡ some (new_row later e)))
            (build_edges g signals (compute_params_hash digest g) (list_done db).0)
  unfolding repair_graph
  recompute-repair_graph n m now later db st size distinct was stopped =
      let st' = (recompute digest g signals n now db st).1 in
      elim (recompute-stays_stale n now db st) [
        | inl finished ↦ absurd cc
        | inr same ↦
            let stale : is_stale digest g db st' ≡ true = same ∙ was in
            let settled = recompute-settles digest g signals m later db st' size distinct in
            rw stale (refl, settled.0, settled.1, settled.2)
      ]
