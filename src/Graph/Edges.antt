-- ===== src/Graph/Edges.antt =====
-- backend/app/storage/sql/edge_repo.py, on the table as a list of rows.
pub mod Stored
use docmesh.Prelude.{
  ℕ, Bool, false, not, ◌&&◌, ◌||◌, Option, none, some, List, [], ◌∷◌, ◌++◌, filter, length,
  if◌then◌else◌,
}
use docmesh.Text.{Text, text_eq}
use docmesh.Storage.{is_none}
use docmesh.Graph.Schemas.{Scores, EdgeCreate}
use docmesh.Graph.Order.{text_lt, sorted_pair}

pub record Edge (W : Type 0) : Type 0 where
  pub item : EdgeCreate W
  pub created_at : ℕ
  pub updated_at : ℕ

module _ {W : Type 0} where
  abbrev pub joins : Text → Text → EdgeCreate W → Bool
  joins source target item = text_eq item.source_doc_id source && text_eq item.target_doc_id target

  -- `tuple_(source, target).in_(pairs)`
  abbrev pub is_replaced : List (EdgeCreate W) → Edge W → Bool
  is_replaced [] row = false
  is_replaced (item ∷ items) row =
      joins item.source_doc_id item.target_doc_id row.item || is_replaced items row

  unfoldable pub find_edge : Text → Text → List (Edge W) → Option (Edge W)
  find_edge source target [] = none
  find_edge source target (row ∷ rows) =
      let rest = find_edge source target rows in
      if joins source target row.item then some row else rest

  abbrev pub new_row : ℕ → EdgeCreate W → Edge W
  new_row now item = record { item = item; created_at = now; updated_at = now }

  -- The INSERT, row by row; `none` is the IntegrityError of the CHECK or of the unique pair. The
  -- keys of the ids of edges and documents are not modelled, and do not raise.
  unfoldable pub insert_rows : ℕ → List (EdgeCreate W) → List (Edge W) → Option (List (Edge W))
  unfolding find_edge text_lt
  insert_rows now [] rows = some rows
  insert_rows now (item ∷ items) rows =
      let rest = insert_rows now items (rows ++ new_row now item ∷ []) in
      if text_lt item.source_doc_id item.target_doc_id
        && is_none (find_edge item.source_doc_id item.target_doc_id rows)
      then rest
      else none

  unfoldable pub upsert_many : ℕ → List (EdgeCreate W) → List (Edge W) → Option (List (Edge W))
  unfolding insert_rows
  upsert_many now items rows =
      insert_rows now items (filter (λ row. not (is_replaced items row)) rows)

  unfoldable pub get : Text → Text → List (Edge W) → Option (Edge W)
  unfolding find_edge sorted_pair
  get source_doc_id target_doc_id rows =
      let (lo, hi) = sorted_pair source_doc_id target_doc_id in find_edge lo hi rows

  -- The table without the edges of a document, and their count.
  unfoldable pub delete_for_document : Text → List (Edge W) → ℕ × List (Edge W)
  delete_for_document doc_id rows =
      let touches = λ (row : Edge W).
        text_eq row.item.source_doc_id doc_id || text_eq row.item.target_doc_id doc_id in
      (length (filter touches rows), filter (λ row. not (touches row)) rows)

module _ {W : Type 0} ⦃s : Scores W⦄ where
  -- ORDER BY combined_score DESC
  unfoldable pub insert_by_score : Edge W → List (Edge W) → List (Edge W)
  insert_by_score row [] = row ∷ []
  insert_by_score row (r ∷ rows) =
      let rest = insert_by_score row rows in
      if s.lt row.item.combined_score r.item.combined_score then r ∷ rest else row ∷ r ∷ rows

  unfoldable pub list_all : List (Edge W) → List (Edge W)
  unfolding insert_by_score
  list_all [] = []
  list_all (row ∷ rows) = insert_by_score row (list_all rows)
