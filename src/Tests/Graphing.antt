-- ===== src/Tests/Graphing.antt =====
-- Three documents, two of them joined.
use docmesh.Prelude.{
  ℕ, ◌≡◌, refl, true, false, none, some, List, [], ◌∷◌, All, map, arith, if◌then◌else◌,
}
use docmesh.Text.{Text, codes, text_eq}
use docmesh.Storage.{Db, empty_db, Document, DocumentStatus, FileType, Chunk}
use docmesh.Graph.{EdgeCreate}
use docmesh.Graph.Edges.{new_row, get}
use docmesh.Graph.Combiner.{ScoringFields, compute_params_hash}
use docmesh.Graph.Build.{Signals, build_edges}
use docmesh.Graph.Recompute.{GraphDb, recompute, repair_graph, is_stale, list_done}
use docmesh.Graph.Recompute.Stale.{recompute-repair_graph}
use docmesh.Graph.Recompute.Settled.{recompute-settles}
use docmesh.Graph.Query.{VectorHit, annotate, unrelated}
use docmesh.Graph.Query.Best.{annotate-eq-best, entries_of}
use docmesh.Graph.Views.{get_graph}
use docmesh.Graph.Views.Served.{get_graph-repair_graph}
use docmesh.Tests.Samples.{hundredths}
use docmesh.Tests.Explaining.{settings}

abbrev pub doc : Text → Document
doc i = record {
  id = i;
  original_filename = i;
  stored_filename = i;
  file_type = FileType.txt;
  size_bytes = 1;
  sha256 = i;
  status = DocumentStatus.done;
  error_message = none;
  title = none;
  page_count = none;
  chunk_count = 1;
  created_at = 1;
  updated_at = 1;
}

abbrev db : Db
db = record empty_db { documents = doc (codes "b") ∷ doc (codes "a") ∷ doc (codes "c") ∷ [] }

-- Only the pair of "b" and "a" is near.
abbrev signals : Signals ℕ
signals = record {
  semantic = λ i j. some (record {
    score = if text_eq i (codes "b") then (if text_eq j (codes "a") then 90 else 0) else 0;
    raw_mean_cosine = 0;
    top_pairs = [];
  });
  entity = λ i j. record { score = 0; shared = [] };
  topic = none;
  topics_of = λ i. (none, []);
  entities_of = λ i. [];
  edge_id = λ i j. codes "e";
}

abbrev digest : ScoringFields ℕ → Text
digest fields = codes "h"

abbrev empty : GraphDb ℕ
empty = record { edges = []; analyses = [] }

abbrev settled : GraphDb ℕ
settled = (recompute digest settings signals 3 7 db empty).1

-- A graph that is not stale, and a recompute that crashes behind its first write: the edges are gone,
-- and the graph is still not stale.
crash_unseen :
    ((recompute digest settings signals 1 8 db settled).1.edges ≡ [])
    × (is_stale digest settings db (recompute digest settings signals 1 8 db settled).1 ≡ false)
unfolding recompute is_stale
crash_unseen = (refl, refl)

-- The graph that a recompute leaves that is stopped behind its second write.
abbrev half : GraphDb ℕ
half = (recompute digest settings signals 2 7 db empty).1

abbrev repaired : GraphDb ℕ
repaired = (repair_graph digest settings signals 3 8 db half).1

recompute-repair_graph_example :
    (is_stale digest settings db half ≡ true)
    × ((repair_graph digest settings signals 3 8 db half).0 ≡ true)
    × (is_stale digest settings db repaired ≡ false)
    × All
        (λ (e : EdgeCreate ℕ).
          (get e.source_doc_id e.target_doc_id repaired.edges ≡ some (new_row 8 e))
          × (get e.target_doc_id e.source_doc_id repaired.edges ≡ some (new_row 8 e)))
        (build_edges settings signals (compute_params_hash digest settings) (list_done db).0)
unfolding list_done text_eq recompute is_stale
recompute-repair_graph_example =
    recompute-repair_graph digest settings signals 2 0 7 8 db empty (omega arith)
      ((refl, (refl, tt)), ((refl, tt), (tt, tt))) refl refl

recompute-settles_example :
    ((recompute digest settings signals 3 7 db empty).0 ≡ true)
    × (is_stale digest settings db settled ≡ false)
    × All
        (λ (e : EdgeCreate ℕ).
          (get e.source_doc_id e.target_doc_id settled.edges ≡ some (new_row 7 e))
          × (get e.target_doc_id e.source_doc_id settled.edges ≡ some (new_row 7 e)))
        (build_edges settings signals (compute_params_hash digest settings) (list_done db).0)
unfolding list_done text_eq
recompute-settles_example =
    recompute-settles digest settings signals 0 7 db empty (omega arith)
      ((refl, (refl, tt)), ((refl, tt), (tt, tt)))

abbrev chunk : Chunk
chunk = record {
  id = codes "c1";
  document_id = codes "a";
  chunk_index = 0;
  text = [];
  token_count = 1;
  page_start = none;
  page_end = none;
  section = none;
  char_start = 0;
  char_end = 0;
  content_hash = [];
  vector_id = some 0;
  is_duplicate = false;
  created_at = 1;
}

abbrev hits : List (VectorHit ℕ)
hits =
    record { chunk_id = codes "c1"; score = 90 } ∷ record { chunk_id = codes "c9"; score = 80 } ∷ []

annotate-eq-best_example :
    annotate settings (chunk ∷ []) hits (map unrelated (codes "a" ∷ codes "b" ∷ []))
    ≡ map (entries_of settings (chunk ∷ []) hits) (codes "a" ∷ codes "b" ∷ [])
annotate-eq-best_example = annotate-eq-best settings (chunk ∷ []) hits (codes "a" ∷ codes "b" ∷ [])

abbrev served : GraphDb ℕ
served = (repair_graph digest settings signals 3 7 db empty).1

get_graph-repair_graph_example :
    ((repair_graph digest settings signals 3 7 db empty).0 ≡ true)
    × (is_stale digest settings db served ≡ false)
    × ((get_graph settings digest (λ q. hits) db served (some (codes "q"))).meta.stale ≡ false)
    × All
        (λ (e : EdgeCreate ℕ).
          (get e.source_doc_id e.target_doc_id served.edges ≡ some (new_row 7 e))
          × (get e.target_doc_id e.source_doc_id served.edges ≡ some (new_row 7 e)))
        (build_edges settings signals (compute_params_hash digest settings) (list_done db).0)
unfolding list_done text_eq get_graph
get_graph-repair_graph_example =
    get_graph-repair_graph digest settings signals (λ q. hits) none (some (codes "q")) 0 7 db empty
      (omega arith) ((refl, (refl, tt)), ((refl, tt), (tt, tt))) refl
