-- ===== src/Graph/Views/Served.antt =====
-- A graph that is served as stale, and the check of the graph at the start.
use docmesh.Prelude.{
  ℕ, suc, ◌≤◌, ◌≡◌, Bool-cases, inl, inr, true, false, some, All, Option, List, [], ◌∷◌, length,
  arith,
}
use docmesh.Text.{Text}
use docmesh.Storage.{Db, Document}
use docmesh.Graph.Schemas.{Scores, GraphSettings, EdgeCreate}
use docmesh.Graph.Combiner.{ScoringFields, compute_params_hash}
use docmesh.Graph.Edges.{new_row, get}
use docmesh.Graph.Build.{Signals, build_edges}
use docmesh.Graph.Build.EdgeSet.{IsDistinct}
use docmesh.Graph.Recompute.{
  DocumentAnalysis, GraphDb, any_off, recompute, repair_graph, is_stale, is_stale_for, list_done,
  ids,
}
use docmesh.Graph.Recompute.Settled.{list_done-all, recompute-settles}
use docmesh.Graph.Query.{VectorHit}
use docmesh.Graph.Views.{any_other_hash, served_stale, get_graph}

module _ {W : Type 0} where
  any_off-of_hash :
      (current : Text) (done_ids : List Text) (analyses : List (DocumentAnalysis W))
      → any_other_hash current analyses ≡ true
      → any_off current done_ids analyses ≡ true
  unfolding any_other_hash any_off
  any_off-of_hash current done_ids [] h = cc
  any_off-of_hash current done_ids (a ∷ rest) h =
      ground (arith, h, any_off-of_hash current done_ids rest)

  is_stale-of_served :
      (current : Text) (docs : List Document) (count : ℕ) (st : GraphDb W)
      → length docs ≡ count
      → served_stale current docs st.analyses ≡ true
      → is_stale_for current (docs, count) st ≡ true
  unfolding served_stale is_stale_for
  is_stale-of_served current docs count st size h =
      ground (arith, size, h, any_off-of_hash current (ids docs) st.analyses)

module _ {W : Type 0} ⦃s : Scores W⦄ (digest : ScoringFields W → Text) (g : GraphSettings W) where
  get_graph-stale :
      (search : Text → List (VectorHit W)) (db : Db) (st : GraphDb W) (query : Option Text)
      → (list_done db).1 ≤ 10000
      → (get_graph g digest search db st query).meta.stale ≡ true
      → is_stale digest g db st ≡ true
  unfolding get_graph is_stale
  get_graph-stale search db st query few h =
      is_stale-of_served (compute_params_hash digest g) (list_done db).0 (list_done db).1 st
        (list_done-all db few) h

  get_graph-not_stale :
      (search : Text → List (VectorHit W)) (db : Db) (st : GraphDb W) (query : Option Text)
      → (list_done db).1 ≤ 10000
      → is_stale digest g db st ≡ false
      → (get_graph g digest search db st query).meta.stale ≡ false
  get_graph-not_stale search db st query few fresh =
      elim (Bool-cases (get_graph g digest search db st query).meta.stale) [
        | inl served ↦ let stale = get_graph-stale search db st query few served in absurd cc
        | inr not_served ↦ not_served
      ]

  -- Of at most ten thousand done documents with distinct ids: where the graph is served as stale, to any
  -- query, the check at the start recomputes it, and if nothing crashes it finishes. The graph is not
  -- stale then, no query is served it as stale, and each edge that was built is found by its
  -- documents, in either order.
  pub get_graph-repair_graph :
      (signals : Signals W) (search : Text → List (VectorHit W)) (query later_query : Option Text)
      → (n now : ℕ) (db : Db) (st : GraphDb W) → (list_done db).1 ≤ 10000
      → IsDistinct (ids (list_done db).0)
      → (get_graph g digest search db st query).meta.stale ≡ true
      → let r = repair_graph digest g signals (suc (suc (suc n))) now db st in
        (r.0 ≡ true)
        × (is_stale digest g db r.1 ≡ false)
        × ((get_graph g digest search db r.1 later_query).meta.stale ≡ false)
        × All
            (λ (e : EdgeCreate W).
              (get e.source_doc_id e.target_doc_id r.1.edges ≡ some (new_row now e))
              × (get e.target_doc_id e.source_doc_id r.1.edges ≡ some (new_row now e)))
            (build_edges g signals (compute_params_hash digest g) (list_done db).0)
  unfolding repair_graph
  get_graph-repair_graph signals search query later_query n now db st few distinct served =
      let stale = get_graph-stale search db st query few served in
      let settled = recompute-settles digest g signals n now db st few distinct in
      let st' = (recompute digest g signals (suc (suc (suc n))) now db st).1 in
      rw stale (
        settled.0,
        settled.1,
        get_graph-not_stale search db st' later_query few settled.1,
        settled.2,
      )
