-- ===== src/Explain/Records.antt =====
-- backend/app/storage/sql/explanation_repo.py, on the table as a list of rows.
use docmesh.Prelude.{
  ℕ, suc, ◌≡◌, refl, Bool, true, false, not, Option, none, some, List, [], ◌∷◌, ◌++◌, filter,
  length, if◌then◌else◌, Bool-cases, inl, inr,
}
use docmesh.Text.{Text, text_eq, text_eq_self}

pub record EdgeExplanationCreate : Type 0 where
  pub cache_key : Text
  pub edge_id : Option Text
  pub model : Text
  pub explanation : Text
  pub input_tokens : Option ℕ
  pub output_tokens : Option ℕ

pub record EdgeExplanationRecord : Type 0 where
  pub item : EdgeExplanationCreate
  pub id : ℕ
  pub created_at : ℕ

-- The table, and the key that its next row gets.
pub record Explanations : Type 0 where
  pub rows : List EdgeExplanationRecord
  pub next_id : ℕ

abbrev has_key : Text → EdgeExplanationRecord → Bool
has_key cache_key row = text_eq row.item.cache_key cache_key

unfoldable pub find_record : Text → List EdgeExplanationRecord → Option EdgeExplanationRecord
find_record cache_key [] = none
find_record cache_key (row ∷ rows) =
    let rest = find_record cache_key rows in if has_key cache_key row then some row else rest

unfoldable pub get_by_cache_key : Text → Explanations → Option EdgeExplanationRecord
unfolding find_record
get_by_cache_key cache_key t = find_record cache_key t.rows

unfoldable pub upsert :
    ℕ → EdgeExplanationCreate → Explanations → EdgeExplanationRecord × Explanations
upsert now item t =
    let row : EdgeExplanationRecord = record { item = item; id = t.next_id; created_at = now } in
    (
      row,
      record {
        rows = filter (λ r. not (has_key item.cache_key r)) t.rows ++ row ∷ [];
        next_id = suc t.next_id;
      },
    )

abbrev is_of_edge : Text → Option Text → Bool
is_of_edge edge_id none = false
is_of_edge edge_id (some i) = text_eq i edge_id

unfoldable pub delete_for_edge : Text → Explanations → ℕ × Explanations
delete_for_edge edge_id t =
    let touches = λ (r : EdgeExplanationRecord). is_of_edge edge_id r.item.edge_id in
    (length (filter touches t.rows), record t { rows = filter (λ r. not (touches r)) t.rows })

find_record-filter :
    (key : Text) (rows : List EdgeExplanationRecord) (row : EdgeExplanationRecord)
    → text_eq row.item.cache_key key ≡ true
    → find_record key (filter (λ r. not (has_key key r)) rows ++ row ∷ []) ≡ some row
unfolding find_record
find_record-filter key [] row h = rw h refl
find_record-filter key (r ∷ rows) row h = elim (Bool-cases (has_key key r)) [
  | inl same ↦ rw same (find_record-filter key rows row h)
  | inr other ↦ rw other (rw other (find_record-filter key rows row h))
]

-- The record that was stored under a key is the one that the key finds.
pub upsert-get_by_cache_key :
    (now : ℕ) (item : EdgeExplanationCreate) (t : Explanations)
    → get_by_cache_key item.cache_key (upsert now item t).1 ≡ some (upsert now item t).0
unfolding get_by_cache_key upsert
upsert-get_by_cache_key now item t =
    find_record-filter item.cache_key t.rows _ (text_eq_self item.cache_key)
