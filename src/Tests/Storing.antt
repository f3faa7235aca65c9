-- ===== src/Tests/Storing.antt =====
-- An index that is a list of vectors, and a store of three chunks of two documents.
use docmesh.Prelude.{
  ℕ, ◌-◌, ◌≤◌, ◌≡◌, refl, true, not, Option, none, some, List, [], ◌∷◌, ◌++◌, All, All-imp, map,
  filter, take, take-All, length, length-filter, ◌==◌, arith, Bool-cases, inl, inr,
}
use docmesh.Text.{Text, codes, text_eq}
use docmesh.Ingest.Exec.{Vector, VectorRow}
use docmesh.Ingest.Pipeline.{index_delete}
use docmesh.Graph.Query.{VectorHit}
use docmesh.Vectors.Faiss.{Faiss, IsFaiss, IsResult, id_in, vector_of}
use docmesh.Vectors.Store.{FaissVectorStore, entry, put_chunks, put_docs, put_vids, query}
use docmesh.Vectors.Rows.{mapping}
use docmesh.Vectors.Dicts.{empty-Maps, put_all-Maps}
use docmesh.Vectors.Represents.{Represents}
use docmesh.Vectors.Refines.{Op, Spec, spec_run, run, run_refines}
use docmesh.Vectors.Queried.{IsHit, query-AreHits}

abbrev pub Flat : Type 0
Flat = ℕ × List (ℕ × Vector)

abbrev scored : List (ℕ × Vector) → List (ℕ × Option ℕ)
scored [] = []
scored ((i, v) ∷ es) = (7, some i) ∷ scored es

abbrev pub flat : Faiss Flat ℕ
flat = record {
  new_index = λ dim. (dim, []);
  dim_of = λ i. i.0;
  ntotal = λ i. length i.1;
  add_with_ids = λ es i. (i.0, i.1 ++ es);
  remove_ids = λ ids i.
      let kept = filter (λ (e : ℕ × Vector). not (id_in e.0 ids)) i.1 in
      (length i.1 - length kept, (i.0, kept));
  search = λ v k i. take k (scored i.1);
  reconstruct = λ id i. vector_of id i.1;
}

IsResult-cons :
    (e : ℕ × Vector) (es : List (ℕ × Vector)) (x : ℕ × Option ℕ)
    → IsResult es x
    → IsResult (e ∷ es) x
unfolding vector_of
IsResult-cons e es (x, none) h = tt
IsResult-cons (j, u) es (x, some i) (v, h) = elim (Bool-cases (j == i)) [
  | inl here ↦ (u, rw here refl)
  | inr later ↦ (v, rw later h)
]

scored-All : (es : List (ℕ × Vector)) → All (IsResult es) (scored es)
unfolding vector_of
scored-All [] = tt
scored-All ((i, v) ∷ es) =
    let same : (i == i) ≡ true = ground arith in
    (
      (v, rw same refl),
      All-imp (IsResult es) (IsResult ((i, v) ∷ es)) (IsResult-cons (i, v) es) (scored es)
          (scored-All es),
    )

flat-IsFaiss : IsFaiss flat
flat-IsFaiss = record {
  contents = λ i. i.1;
  contents-new = λ dim. refl;
  contents-add = λ es i. refl;
  contents-remove = λ ids i. refl;
  removed = λ ids i. omega (arith, length-filter (λ (e : ℕ × Vector). not (id_in e.0 ids)) i.1);
  ntotal-eq = λ i. refl;
  dim-new = λ dim. refl;
  dim-add = λ es i. refl;
  dim-remove = λ ids i. refl;
  search-results = λ v k i. take-All (IsResult i.1) k (scored i.1) (scored-All i.1);
  reconstruct-eq = λ id i. refl;
}

abbrev pub row : ℕ → Text → Text → VectorRow
row i c d = record { vector_id = i; chunk_id = c; doc_id = d; vector = i ∷ [] }

abbrev pub rows : List VectorRow
rows =
    row 1 (codes "c1") (codes "a")
    ∷ row 2 (codes "c2") (codes "a")
    ∷ row 3 (codes "c3") (codes "b")
    ∷ []

-- A store whose file has no vector yet, and what it stands for.
abbrev first_store : FaissVectorStore Flat
first_store = record {
  dim = 1;
  file = some (1, []);
  index = some (1, []);
  chunk_by_vid = [];
  doc_by_vid = [];
  vids_by_doc = [];
}

abbrev empty_spec : Spec
empty_spec = record { rows = []; persisted = [] }

first-Represents : Represents flat flat-IsFaiss first_store [] []
unfolding flat-IsFaiss
first-Represents = record {
  index_eq = ((1, []), refl, refl, refl);
  maps = empty-Maps;
  distinct = tt;
  file_eq = (refl, refl);
  persisted_distinct = tt;
}

-- The deletion is lost by the restart, since it was not persisted.
abbrev ops : List Op
ops =
    Op.upsert_rows rows
    ∷ Op.persist_rows
    ∷ Op.delete_doc (codes "a")
    ∷ Op.count_rows
    ∷ Op.restart (map mapping rows)
    ∷ Op.count_rows
    ∷ []

numbers : (spec_run ops empty_spec).0 ≡ 2 ∷ 1 ∷ 3 ∷ []
unfolding index_delete text_eq
numbers = refl

run_refines_example :
    (st : FaissVectorStore Flat) × (run flat ops first_store
      ≡ some ((spec_run ops empty_spec).0, st))
    × Represents flat flat-IsFaiss st
        (spec_run ops empty_spec).1.rows
        (spec_run ops empty_spec).1.persisted
run_refines_example =
    run_refines flat flat-IsFaiss ops first_store empty_spec first-Represents
      ((refl, (refl, (refl, tt))), (tt, (tt, (tt, (refl, (tt, tt))))))

-- The store behind an upsert, for a query that wants one document.
abbrev full_store : FaissVectorStore Flat
full_store = record {
  dim = 1;
  file = some (1, map entry rows);
  index = some (1, map entry rows);
  chunk_by_vid = (1, codes "c1") ∷ (2, codes "c2") ∷ (3, codes "c3") ∷ [];
  doc_by_vid = (1, codes "a") ∷ (2, codes "a") ∷ (3, codes "b") ∷ [];
  vids_by_doc = (codes "a", 1 ∷ 2 ∷ []) ∷ (codes "b", 3 ∷ []) ∷ [];
}

one_wanted :
    query flat (9 ∷ []) 2 (some (codes "b" ∷ [])) full_store
    ≡ some (record { chunk_id = codes "c3"; score = 7 } ∷ [])
unfolding query text_eq
one_wanted = refl

full-Represents : Represents flat flat-IsFaiss full_store rows rows
unfolding flat-IsFaiss put_chunks put_docs put_vids text_eq
full-Represents = record {
  index_eq = ((1, map entry rows), refl, refl, refl);
  maps = put_all-Maps [] rows [] [] [] (refl, (refl, (refl, tt))) empty-Maps;
  distinct = (refl, (refl, (refl, tt)));
  file_eq = (refl, refl);
  persisted_distinct = (refl, (refl, (refl, tt)));
}

query-AreHits_example :
    (hits : List (VectorHit ℕ)) × (query flat (9 ∷ []) 2 (some (codes "b" ∷ [])) full_store
      ≡ some hits)
    × (length hits ≤ 2)
    × All (IsHit (some (codes "b" ∷ [])) rows) hits
query-AreHits_example =
    query-AreHits flat flat-IsFaiss full_store rows rows full-Represents (9 ∷ []) 2
      (some (codes "b" ∷ []))
