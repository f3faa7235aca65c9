-- ===== src/Vectors/Refines.antt =====
-- A client of the store sees what the rows of the pipeline's model say.
use docmesh.Prelude.{
  ℕ, ◌-◌, ◌≡◌, refl, ap, ◌∙◌, Option, none, some, List, [], ◌∷◌, ◌++◌, map, length, length-map,
  arith,
}
use docmesh.Text.{Text}
use docmesh.Ingest.Exec.{VectorRow}
use docmesh.Ingest.Pipeline.{index_delete}
use docmesh.Vectors.Faiss.{Faiss, IsFaiss}
use docmesh.Vectors.Store.{
  FaissVectorStore, new_store, load, reset, upsert, delete_by_document, persist, count, entry,
  total,
}
use docmesh.Vectors.Rows.{IsFresh, mapping}
use docmesh.Vectors.Represents.{
  Represents, reset-Represents, upsert-Represents, persist-Represents, load-Represents,
}
use docmesh.Vectors.Deleted.{delete-Represents}

-- The calls of a client. A restart makes a new store and loads the mappings of the database.
pub data Op : Type 0 where
  upsert_rows : List VectorRow → Op
  delete_doc : Text → Op
  persist_rows : Op
  reset_rows : Op
  restart : List (ℕ × Text × Text) → Op
  count_rows : Op

-- What the pipeline's model has in place of the store: the rows, and those that were persisted.
pub record Spec : Type 0 where
  pub rows : List VectorRow
  pub persisted : List VectorRow

-- A call, with the numbers that it returns.
abbrev pub spec_step : Op → Spec → List ℕ × Spec
spec_step (upsert_rows rs) s = ([], record s { rows = s.rows ++ rs })
spec_step (delete_doc doc_id) s = (
  (length s.rows - length (index_delete doc_id s.rows)) ∷ [],
  record s { rows = index_delete doc_id s.rows },
)
spec_step persist_rows s = ([], record s { persisted = s.rows })
spec_step reset_rows s = ([], record s { rows = [] })
spec_step (restart mappings) s = ([], record s { rows = s.persisted })
spec_step count_rows s = (length s.rows ∷ [], s)

abbrev pub spec_run : List Op → Spec → List ℕ × Spec
spec_run [] s = ([], s)
spec_run (op ∷ ops) s =
    let (outs, s') = spec_step op s in let (more, s'') = spec_run ops s' in (outs ++ more, s'')

-- What is upserted has ids of its own, and the mappings are those of the rows that were persisted.
abbrev pub IsAllowed : Op → Spec → Type 0
IsAllowed (upsert_rows rs) s = IsFresh s.rows rs
IsAllowed (restart mappings) s = mappings ≡ map mapping s.persisted
IsAllowed (delete_doc doc_id) s = Unit
IsAllowed persist_rows s = Unit
IsAllowed reset_rows s = Unit
IsAllowed count_rows s = Unit

abbrev pub AreAllowed : List Op → Spec → Type 0
AreAllowed [] s = Unit
AreAllowed (op ∷ ops) s = IsAllowed op s × AreAllowed ops (spec_step op s).1

module _ {I W : Type 0} (f : Faiss I W) where
  abbrev numbered : Option (ℕ × FaissVectorStore I) → Option (List ℕ × FaissVectorStore I)
  numbered none = none
  numbered (some (n, st)) = some (n ∷ [], st)

  abbrev silent : Option (FaissVectorStore I) → Option (List ℕ × FaissVectorStore I)
  silent none = none
  silent (some st) = some ([], st)

  abbrev pub step : Op → FaissVectorStore I → Option (List ℕ × FaissVectorStore I)
  step (upsert_rows rs) st = silent (upsert f rs st)
  step (delete_doc doc_id) st = numbered (delete_by_document f doc_id st)
  step persist_rows st = silent (persist f st)
  step reset_rows st = some ([], reset f st)
  step (restart mappings) st = silent (load f mappings (new_store f st.dim st.file))
  step count_rows st = some (count f st ∷ [], st)

  abbrev joined :
      List ℕ → Option (List ℕ × FaissVectorStore I) → Option (List ℕ × FaissVectorStore I)
  joined outs none = none
  joined outs (some (more, st)) = some (outs ++ more, st)

  abbrev next :
      (FaissVectorStore I → Option (List ℕ × FaissVectorStore I))
      → Option (List ℕ × FaissVectorStore I)
      → Option (List ℕ × FaissVectorStore I)
  next g none = none
  next g (some (outs, st)) = joined outs (g st)

  abbrev pub run : List Op → FaissVectorStore I → Option (List ℕ × FaissVectorStore I)
  run [] st = some ([], st)
  run (op ∷ ops) st = next (λ st'. run ops st') (step op st)

  module _ (laws : IsFaiss f) where
    step_refines :
        (op : Op) (st : FaissVectorStore I) (s : Spec)
        → Represents f laws st s.rows s.persisted
        → IsAllowed op s
        → (st' : FaissVectorStore I) × (step op st ≡ some ((spec_step op s).0, st'))
          × Represents f laws st' (spec_step op s).1.rows (spec_step op s).1.persisted
    unfolding count
    step_refines (upsert_rows rs) st s h fresh =
        let (st', eq, h') = upsert-Represents f laws st s.rows s.persisted rs fresh h in
        (st', ap silent eq, h')
    step_refines (delete_doc doc_id) st s h ok =
        let (n, st', eq, counted, h') = delete-Represents f laws st s.rows s.persisted doc_id h in
        let number : n ≡ length s.rows - length (index_delete doc_id s.rows) = omega arith in
        (st', rw eq (ap (λ m. some (m ∷ [], st')) number), h')
    step_refines persist_rows st s h ok =
        let (st', eq, h') = persist-Represents f laws st s.rows s.persisted h in
        (st', ap silent eq, h')
    step_refines reset_rows st s h ok =
        (reset f st, refl, reset-Represents f laws st s.rows s.persisted h)
    step_refines (restart mappings) st s h same =
        let (st', eq, h') =
          load-Represents f laws st.dim st.file s.persisted h.file_eq h.persisted_distinct in
        (st', rw same (ap silent eq), h')
    step_refines count_rows st s h ok =
        let (i, found, held, dim) = h.index_eq in
        (
          st,
          ap (λ n. some (n ∷ [], st))
              (ap (total f) found ∙ laws.ntotal-eq i ∙ ap length held ∙ length-map entry s.rows),
          h,
        )

    -- Where a client upserts only ids that are not in use, and a restart loads the mappings of what was
    -- persisted: the calls on a store that stands for some rows raise nothing, return the numbers
    -- that the calls on the rows return, and lead to a store that stands for their rows.
    pub run_refines :
        (ops : List Op) (st : FaissVectorStore I) (s : Spec)
        → Represents f laws st s.rows s.persisted
        → AreAllowed ops s
        → (st' : FaissVectorStore I) × (run ops st ≡ some ((spec_run ops s).0, st'))
          × Represents f laws st' (spec_run ops s).1.rows (spec_run ops s).1.persisted
    run_refines [] st s h allowed = (st, refl, h)
    run_refines (op ∷ ops) st s h (now, later) =
        let (st', eq, h') = step_refines op st s h now in
        let (st'', eq', h'') = run_refines ops st' (spec_step op s).1 h' later in
        (st'', ap (next (λ x. run ops x)) eq ∙ ap (joined (spec_step op s).0) eq', h'')
