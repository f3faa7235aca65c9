-- ===== src/Graph/Edges/Stored.antt =====
-- An edge that is written is read back.
use docmesh.Prelude.{
  ℕ, ◌≡◌, refl, ◌∙◌, Bool, true, false, not, Option, none, some, List, [], ◌∷◌, ◌++◌, All, filter,
  if_both, arith, Bool-cases, inl, inr,
}
use docmesh.Text.{Text, text_eq_self}
use docmesh.Graph.Schemas.{EdgeCreate}
use docmesh.Graph.Order.{text_lt, sorted_pair, text_lt_asym}
use docmesh.Graph.Edges.{
  Edge, joins, is_replaced, find_edge, new_row, insert_rows, upsert_many, get,
}

module _ {W : Type 0} where
  find_edge-append :
      (source target : Text) (rows more : List (Edge W)) (row : Edge W)
      → find_edge source target rows ≡ some row
      → find_edge source target (rows ++ more) ≡ some row
  unfolding find_edge
  find_edge-append source target [] more row h = cc
  find_edge-append source target (r ∷ rows) more row h =
      elim (Bool-cases (joins source target r.item)) [
        | inl here ↦ ground (arith, here, h)
        | inr later ↦ ground (arith, later, h, find_edge-append source target rows more row)
      ]

  find_edge-new :
      (now : ℕ) (item : EdgeCreate W) (rows : List (Edge W))
      → find_edge item.source_doc_id item.target_doc_id rows ≡ none
      → find_edge item.source_doc_id item.target_doc_id (rows ++ new_row now item ∷ [])
        ≡ some (new_row now item)
  unfolding find_edge
  find_edge-new now item [] h =
      rw (text_eq_self item.source_doc_id, text_eq_self item.target_doc_id) refl
  find_edge-new now item (r ∷ rows) h =
      elim (Bool-cases (joins item.source_doc_id item.target_doc_id r.item)) [
        | inl here ↦ absurd (ground (arith, here, h))
        | inr later ↦ ground (arith, later, h, find_edge-new now item rows)
      ]

  -- Each item joins its documents in order, and no later one joins the same ones.
  abbrev pub IsEdgeSet : List (EdgeCreate W) → Type 0
  IsEdgeSet [] = Unit
  IsEdgeSet (item ∷ items) =
      (text_lt item.source_doc_id item.target_doc_id ≡ true)
      × All (λ (other : EdgeCreate W). joins other.source_doc_id other.target_doc_id item ≡ false)
          items
      × IsEdgeSet items

  abbrev IsAbsent : List (Edge W) → EdgeCreate W → Type 0
  IsAbsent rows item = find_edge item.source_doc_id item.target_doc_id rows ≡ none

  IsAbsent-append :
      (now : ℕ) (item other : EdgeCreate W) (rows : List (Edge W))
      → joins other.source_doc_id other.target_doc_id item ≡ false
      → IsAbsent rows other
      → IsAbsent (rows ++ new_row now item ∷ []) other
  unfolding find_edge
  IsAbsent-append now item other [] h k = rw h refl
  IsAbsent-append now item other (r ∷ rows) h k =
      elim (Bool-cases (joins other.source_doc_id other.target_doc_id r.item)) [
        | inl here ↦ absurd (ground (arith, here, k))
        | inr later ↦ ground (arith, later, k, IsAbsent-append now item other rows h)
      ]

  IsAbsent-append_all :
      (now : ℕ) (item : EdgeCreate W) (rows : List (Edge W)) (items : List (EdgeCreate W))
      → All
          (λ (other : EdgeCreate W). joins other.source_doc_id other.target_doc_id item ≡ false)
          items
      → All (IsAbsent rows) items
      → All (IsAbsent (rows ++ new_row now item ∷ [])) items
  IsAbsent-append_all now item rows [] h k = tt
  IsAbsent-append_all now item rows (other ∷ items) (h, hs) (k, ks) =
      (IsAbsent-append now item other rows h k, IsAbsent-append_all now item rows items hs ks)

  IsAbsent-filter :
      (p : Edge W → Bool) (item : EdgeCreate W)
      → ((row : Edge W)
          → joins item.source_doc_id item.target_doc_id row.item ≡ true
          → p row ≡ false)
      → (rows : List (Edge W)) → IsAbsent (filter p rows) item
  unfolding find_edge
  IsAbsent-filter p item h [] = refl
  IsAbsent-filter p item h (r ∷ rows) =
      elim (Bool-cases (joins item.source_doc_id item.target_doc_id r.item)) [
        | inl here ↦ rw (h r here) (IsAbsent-filter p item h rows)
        | inr later ↦
            if_both (λ l. IsAbsent l item) (p r) (λ _. rw later (IsAbsent-filter p item h rows))
              (λ _. IsAbsent-filter p item h rows)
      ]

  filter-IsAbsent :
      (p : Edge W → Bool) (items : List (EdgeCreate W)) (rows : List (Edge W))
      → ((row : Edge W) → is_replaced items row ≡ true → p row ≡ false)
      → All (IsAbsent (filter p rows)) items
  filter-IsAbsent p [] rows h = tt
  filter-IsAbsent p (item ∷ items) rows h = (
    IsAbsent-filter p item (λ row e. h row (ground (arith, e))) rows,
    filter-IsAbsent p items rows (λ row e. h row (ground (arith, e))),
  )

  -- What was there is there still, and each item is.
  abbrev Inserted : ℕ → List (EdgeCreate W) → List (Edge W) → Option (List (Edge W)) → Type 0
  Inserted now items rows o =
      (rows' : List (Edge W)) × (o ≡ some rows')
      × ((source target : Text) (row : Edge W)
          → find_edge source target rows ≡ some row
          → find_edge source target rows' ≡ some row)
      × All
          (λ (item : EdgeCreate W).
            find_edge item.source_doc_id item.target_doc_id rows' ≡ some (new_row now item))
          items

  insert_rows-Inserted :
      (now : ℕ) (items : List (EdgeCreate W)) (rows : List (Edge W))
      → IsEdgeSet items
      → All (IsAbsent rows) items
      → Inserted now items rows (insert_rows now items rows)
  unfolding insert_rows
  insert_rows-Inserted now [] rows set absent = (rows, refl, (λ source target row h. h), tt)
  insert_rows-Inserted now (item ∷ items) rows (ordered, others, set) (absent, absents) =
      let rows_1 = rows ++ new_row now item ∷ [] in
      let (rows', done, kept, found) =
        insert_rows-Inserted now items rows_1 set
          (IsAbsent-append_all now item rows items others absents) in
      (
        rows',
        rw (ordered, absent) done,
        (λ source target row h.
            kept source target row (find_edge-append source target rows _ row h)),
        (kept _ _ _ (find_edge-new now item rows absent), found),
      )

  ordered_get :
      (source target : Text) (rows : List (Edge W))
      → text_lt source target ≡ true
      → (get source target rows ≡ find_edge source target rows)
        × (get target source rows ≡ find_edge source target rows)
  unfolding get sorted_pair
  ordered_get source target rows h = (rw (text_lt_asym source target h) refl, rw h refl)

  ordered_gets :
      (now : ℕ) (rows : List (Edge W)) (items : List (EdgeCreate W))
      → IsEdgeSet items
      → All
          (λ (item : EdgeCreate W).
            find_edge item.source_doc_id item.target_doc_id rows ≡ some (new_row now item))
          items
      → All
          (λ (item : EdgeCreate W).
            (get item.source_doc_id item.target_doc_id rows ≡ some (new_row now item))
            × (get item.target_doc_id item.source_doc_id rows ≡ some (new_row now item)))
          items
  ordered_gets now rows [] set h = tt
  ordered_gets now rows (item ∷ items) (ordered, others, set) (h, hs) =
      let both = ordered_get item.source_doc_id item.target_doc_id rows ordered in
      ((both.0 ∙ h, both.1 ∙ h), ordered_gets now rows items set hs)

  -- Edges that join their documents in order, each pair once, are written whatever the table has;
  -- each is then found by its two documents, in either order.
  pub upsert_many-get :
      (now : ℕ) (items : List (EdgeCreate W)) (rows : List (Edge W))
      → IsEdgeSet items
      → (rows' : List (Edge W)) × (upsert_many now items rows ≡ some rows')
        × All
            (λ (item : EdgeCreate W).
              (get item.source_doc_id item.target_doc_id rows' ≡ some (new_row now item))
              × (get item.target_doc_id item.source_doc_id rows' ≡ some (new_row now item)))
            items
  unfolding upsert_many
  upsert_many-get now items rows set =
      let keep = λ (row : Edge W). not (is_replaced items row) in
      let absent = filter-IsAbsent keep items rows (λ row e. rw e refl) in
      let (rows', done, kept, found) =
        insert_rows-Inserted now items (filter keep rows) set absent in
      (rows', done, ordered_gets now rows' items set found)
