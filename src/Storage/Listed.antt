-- ===== src/Storage/Listed.antt =====
-- What a page of `SqlDocumentRepository.list` has, where the limit takes all.
use docmesh.Prelude.{
  ℕ, zero, suc, ◌≤◌, ◌≡◌, refl, ap, ◌∙◌, ◌||◌, List, [], ◌∷◌, take, length, filter, map, leb,
  if_both, some, arith,
}
use docmesh.Text.{Text, text_eq, text_in}
use docmesh.Storage.Schemas.{DocumentStatus, Document, Db}
use docmesh.Storage.Documents.{insert_newest, newest_first, has_status, list_documents}

abbrev pub ids : List Document → List Text
ids docs = map (λ (d : Document). d.id) docs

length-insert_newest :
    (d : Document) (ds : List Document) → length (insert_newest d ds) ≡ suc (length ds)
unfolding insert_newest
length-insert_newest d [] = refl
length-insert_newest d (e ∷ es) =
    if_both (λ (l : List Document). length l ≡ suc (suc (length es)))
      (leb e.created_at d.created_at) (λ _. refl) (λ _. ap suc (length-insert_newest d es))

pub length-newest_first : (ds : List Document) → length (newest_first ds) ≡ length ds
unfolding newest_first
length-newest_first [] = refl
length-newest_first (d ∷ ds) =
    length-insert_newest d (newest_first ds) ∙ ap suc (length-newest_first ds)

take-short : {A : Type 0} (n : ℕ) (xs : List A) → length xs ≤ n → take n xs ≡ xs
take-short zero [] h = refl
take-short zero (x ∷ xs) h = absurd (omega arith)
take-short (suc n) [] h = refl
take-short (suc n) (x ∷ xs) h = ap (λ l. x ∷ l) (take-short n xs (omega arith))

pub list_documents-all :
    (limit : ℕ) (s : DocumentStatus) (db : Db)
    → length (filter (has_status (some s)) db.documents) ≤ limit
    → (list_documents 0 limit (some s) db).0
      ≡ newest_first (filter (has_status (some s)) db.documents)
unfolding list_documents
list_documents-all limit s db h =
    let rows = filter (has_status (some s)) db.documents in
    take-short limit (newest_first rows) (omega (arith, length-newest_first rows))

insert_newest-has :
    (x : Text) (d : Document) (ds : List Document)
    → text_in x (ids (insert_newest d ds)) ≡ (text_eq x d.id || text_in x (ids ds))
unfolding insert_newest text_in
insert_newest-has x d [] = refl
insert_newest-has x d (e ∷ es) =
    if_both
      (λ (l : List Document).
        text_in x (ids l) ≡ (text_eq x d.id || (text_eq x e.id || text_in x (ids es))))
      (leb e.created_at d.created_at) (λ _. refl) (λ _. ground (arith, insert_newest-has x d es))

pub newest_first-has :
    (x : Text) (ds : List Document) → text_in x (ids (newest_first ds)) ≡ text_in x (ids ds)
unfolding newest_first text_in
newest_first-has x [] = refl
newest_first-has x (d ∷ ds) =
    insert_newest-has x d (newest_first ds) ∙ ap (λ b. text_eq x d.id || b) (newest_first-has x ds)
