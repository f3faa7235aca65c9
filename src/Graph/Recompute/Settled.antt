-- ===== src/Graph/Recompute/Settled.antt =====
-- What a recompute leaves.
use docmesh.Prelude.{
  ℕ, suc, ◌≤◌, ◌≡◌, refl, ap, ◌∙◌, true, false, not, some, List, [], ◌∷◌, All, map, length,
  length-map, filter, length-take, ◌==◌, ==_self, if◌then◌else◌, if_both, arith,
}
use docmesh.Text.{Text, text_eq_self, text_in}
use docmesh.Storage.{Db, Document, DocumentStatus, list_documents, newest_first, has_status}
use docmesh.Storage.Listed.{length-newest_first}
use docmesh.Graph.Schemas.{Scores, GraphSettings, EdgeCreate, DocumentAnalysisCreate}
use docmesh.Graph.Combiner.{ScoringFields, compute_params_hash}
use docmesh.Graph.Edges.{Edge, new_row, get, upsert_many}
use docmesh.Graph.Edges.Stored.{upsert_many-get}
use docmesh.Graph.Build.{Signals, analysis_of, build_edges, build_analyses}
use docmesh.Graph.Build.EdgeSet.{IsDistinct, edges_of-IsEdgeSet}
use docmesh.Graph.Recompute.{
  GraphDb, DocumentAnalysis, new_analysis, delete_all, replace_all, any_off, with_edges,
  write_edges, last_writes, writes, run-done, run, recompute, is_stale, is_stale_for, list_done,
  ids,
}

module _ {W : Type 0} ⦃s : Scores W⦄ (g : GraphSettings W) (signals : Signals W)
    (params_hash : Text) (now : ℕ) where
  -- The rows that `replace_all` writes for the documents.
  abbrev rows : List Document → List (DocumentAnalysis W)
  rows docs = map (new_analysis now) (map (analysis_of g signals params_hash) docs)

  any_off-weaken :
      (i : Text) (is : List Text) (docs : List Document)
      → any_off params_hash is (rows docs) ≡ false
      → any_off params_hash (i ∷ is) (rows docs) ≡ false
  unfolding any_off text_in
  any_off-weaken i is [] h = refl
  any_off-weaken i is (d ∷ ds) h = ground (arith, h, any_off-weaken i is ds)

  any_off-rows : (docs : List Document) → any_off params_hash (ids docs) (rows docs) ≡ false
  unfolding any_off text_in
  any_off-rows [] = refl
  any_off-rows (d ∷ ds) =
      let rest = any_off-weaken d.id (ids ds) ds (any_off-rows ds) in
      rw (text_eq_self params_hash, text_eq_self d.id) rest

  is_stale_for-rows :
      (docs : List Document) (count : ℕ) (st : GraphDb W)
      → length docs ≡ count
      → st.analyses ≡ rows docs
      → is_stale_for params_hash (docs, count) st ≡ false
  unfolding is_stale_for
  is_stale_for-rows docs count st size e =
      if_both (λ b. b ≡ false) (count == 0) (λ _. refl) (λ _. rw e counted)
    where
      same_count : length (rows docs) ≡ count
      same_count =
          length-map (new_analysis now) (map (analysis_of g signals params_hash) docs)
          ∙ length-map (analysis_of g signals params_hash) docs
          ∙ size

      counted :
          (if not (length (rows docs) == count)
            then true
            else any_off params_hash (ids docs) (rows docs))
          ≡ false
      counted = rw (same_count, ==_self count) (any_off-rows docs)

pub list_done-all :
    (db : Db) → (list_done db).1 ≤ 10000 → length (list_done db).0 ≡ (list_done db).1
unfolding list_done list_documents
list_done-all db h =
    let rows = filter (has_status (some DocumentStatus.done)) db.documents in
    omega (arith, length-take 10000 (newest_first rows), length-newest_first rows)

run-writes :
    {W : Type 0} (n now : ℕ) (edges : List (EdgeCreate W))
    (analyses : List (DocumentAnalysisCreate W))
    → (st : GraphDb W) (stored : List (Edge W)) → upsert_many now edges [] ≡ some stored
    → run (suc (suc (suc n))) (writes now edges analyses) st
      ≡ (true, record { edges = stored; analyses = map (new_analysis now) analyses })
unfolding run writes write_edges delete_all replace_all
run-writes n now edges analyses st stored done =
    let emptied = delete_all st in
    run-done (suc n) (write_edges now edges) (last_writes now analyses) emptied
      (record st { edges = stored }) (ap (with_edges emptied) done)

module _ {W : Type 0} ⦃s : Scores W⦄ (digest : ScoringFields W → Text) (g : GraphSettings W)
    (signals : Signals W) where
  -- Of at most ten thousand done documents with distinct ids, a recompute in which nothing crashes
  -- finishes; the graph is not stale then, and each edge that was built is found by its documents, in
  -- either order.
  pub recompute-settles :
      (n now : ℕ) (db : Db) (st : GraphDb W)
      → (list_done db).1 ≤ 10000
      → IsDistinct (ids (list_done db).0)
      → let r = recompute digest g signals (suc (suc (suc n))) now db st in
        (r.0 ≡ true)
        × (is_stale digest g db r.1 ≡ false)
        × All
            (λ (e : EdgeCreate W).
              (get e.source_doc_id e.target_doc_id r.1.edges ≡ some (new_row now e))
              × (get e.target_doc_id e.source_doc_id r.1.edges ≡ some (new_row now e)))
            (build_edges g signals (compute_params_hash digest g) (list_done db).0)
  unfolding recompute is_stale build_edges build_analyses
  recompute-settles n now db st size distinct =
      let docs = (list_done db).0 in
      let params_hash = compute_params_hash digest g in
      let edges = build_edges g signals params_hash docs in
      let (stored, done, found) =
        upsert_many-get now edges []
          (edges_of-IsEdgeSet g signals params_hash (ids docs) distinct) in
      let analyses = build_analyses g signals params_hash docs in
      let written : GraphDb W = record {
        edges = stored;
        analyses = map (new_analysis now) analyses;
      } in
      let r_eq : recompute digest g signals (suc (suc (suc n))) now db st ≡ (true, written) =
        run-writes n now edges analyses st stored done in
      rw r_eq (
        refl,
        is_stale_for-rows g signals params_hash now docs (list_done db).1 written
            (list_done-all db size) refl,
        found,
      )
