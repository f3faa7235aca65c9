-- ===== src/Ingest/Startup/Rows.antt =====
-- The documents that a sweep finds, and what it does to their rows.
use docmesh.Prelude.{
  suc, ◌≡◌, refl, ap, ◌∙◌, true, false, ◌||◌, some, List, [], ◌∷◌, ◌++◌, All, All-imp, filter,
  length, ltb, if_both, arith,
}
use docmesh.Text.{Text, text_eq, text_eq_self, text_in}
use docmesh.Storage.{Document, DocumentStatus, status_eq, has_status, update_documents}
use docmesh.Storage.Listed.{ids}
use docmesh.Ingest.Startup.{insert_oldest, oldest_first}

pub update_documents-All :
    (P Q : Document → Type 0) (f : Document → Document) (i : Text)
    → ((d : Document) → text_eq d.id i ≡ true → P d → Q (f d))
    → ((d : Document) → text_eq d.id i ≡ false → P d → Q d)
    → (ds : List Document) → All P ds
    → All Q (update_documents f i ds)
unfolding update_documents
update_documents-All P Q f i hit miss [] h = tt
update_documents-All P Q f i hit miss (d ∷ ds) (h, hs) =
    let rest = update_documents-All P Q f i hit miss ds hs in
    if_both (All Q) (text_eq d.id i) (λ e. (hit d e h, rest)) (λ e. (miss d e h, rest))

pub length-update_documents :
    (f : Document → Document) (i : Text) (ds : List Document)
    → length (update_documents f i ds) ≡ length ds
unfolding update_documents
length-update_documents f i [] = refl
length-update_documents f i (d ∷ ds) =
    if_both (λ (l : List Document). length l ≡ suc (length ds)) (text_eq d.id i)
      (λ _. ap suc (length-update_documents f i ds)) (λ _. ap suc (length-update_documents f i ds))

pub text_in-append :
    (x : Text) (xs ys : List Text) → text_in x (xs ++ ys) ≡ (text_in x xs || text_in x ys)
unfolding text_in
text_in-append x [] ys = refl
text_in-append x (y ∷ xs) ys = ground (arith, text_in-append x xs ys)

insert_oldest-has :
    (x : Text) (d : Document) (ds : List Document)
    → text_in x (ids (insert_oldest d ds)) ≡ (text_eq x d.id || text_in x (ids ds))
unfolding insert_oldest text_in
insert_oldest-has x d [] = refl
insert_oldest-has x d (e ∷ es) =
    if_both
      (λ (l : List Document).
        text_in x (ids l) ≡ (text_eq x d.id || (text_eq x e.id || text_in x (ids es))))
      (ltb e.created_at d.created_at) (λ _. ground (arith, insert_oldest-has x d es)) (λ _. refl)

pub oldest_first-has :
    (x : Text) (ds : List Document) → text_in x (ids (oldest_first ds)) ≡ text_in x (ids ds)
unfolding oldest_first text_in
oldest_first-has x [] = refl
oldest_first-has x (d ∷ ds) =
    insert_oldest-has x d (oldest_first ds) ∙ ap (λ b. text_eq x d.id || b) (oldest_first-has x ds)

-- A document with the status is among those that are filtered by it.
pub filter-has :
    (s : DocumentStatus) (ds : List Document)
    → All
        (λ (d : Document).
          status_eq d.status s ≡ true → text_in d.id (ids (filter (has_status (some s)) ds)) ≡ true)
        ds
unfolding text_in
filter-has s [] = tt
filter-has s (e ∷ es) =
    let rows = filter (has_status (some s)) es in
    let Found : List Document → Document → Type 0 =
      λ l d. status_eq d.status s ≡ true → text_in d.id (ids l) ≡ true in
    if_both (λ (l : List Document). All (Found l) (e ∷ es)) (status_eq e.status s)
      (λ _. (
        (λ _. ground (arith, text_eq_self e.id)),
        All-imp (Found rows) (Found (e ∷ rows)) (λ d h k. ground (arith, h k)) es (filter-has s es),
      ))
      (λ other. ((λ k. absurd (ground (arith, other, k))), filter-has s es))
