-- ===== src/Vectors/Dicts.antt =====
-- The three dictionaries of the store say what a list of rows says.
use docmesh.Prelude.{
  ℕ, ◌≡◌, refl, sym, ap, ◌∙◌, subst, Bool, true, false, ◌||◌, not, Option, none, some, List, [],
  ◌∷◌, ◌++◌, append-nil, append_assoc, filter, ◌==◌, if◌then◌else◌, if_both, arith, Bool-cases, inl,
  inr,
}
use docmesh.Text.{Text, text_eq, eq_of_text_eq}
use docmesh.Dict.{Dict, nat_key, text_key, find, put, pop, find-put, find-pop}
use docmesh.Ingest.Exec.{VectorRow}
use docmesh.Ingest.Pipeline.{index_delete}
use docmesh.Vectors.Faiss.{id_in}
use docmesh.Vectors.Store.{ids_or_none, vids_of, add_id, put_chunks, put_docs, put_vids, pop_all}
use docmesh.Vectors.Rows.{
  find_row, IsDistinct, IsFresh, chunk_of, doc_of, owns, keep, first_of-none, find_row-append,
  find_row-filter,
}

-- What the dictionaries say of an id.
pub record Maps (rows : List VectorRow) (chunks docs : Dict ℕ Text) (vids : Dict Text (List ℕ))
    : Type 0 where
  pub chunks_eq : (v : ℕ) → find v chunks ≡ chunk_of (find_row v rows)
  pub docs_eq : (v : ℕ) → find v docs ≡ doc_of (find_row v rows)
  pub vids_eq :
      (doc_id : Text) (v : ℕ) → id_in v (vids_of doc_id vids) ≡ owns doc_id (find_row v rows)

pub empty-Maps : Maps [] [] [] []
unfolding find id_in vids_of
empty-Maps = record { chunks_eq = λ v. refl; docs_eq = λ v. refl; vids_eq = λ d v. refl }

ap_if :
    {A B : Type 0} (f : A → B) (b : Bool) (x y : A)
    → (if b then f x else f y) ≡ f (if b then x else y)
ap_if f true x y = refl
ap_if f false x y = refl

if_or :
    {A : Type 0} (a b : Bool) (x : Option A)
    → (if a then none else if b then none else x) ≡ (if b || a then none else x)
if_or true true x = refl
if_or true false x = refl
if_or false true x = refl
if_or false false x = refl

vids_of-put :
    (doc_id k : Text) (ids : List ℕ) (d : Dict Text (List ℕ))
    → vids_of doc_id (put k ids d) ≡ (if text_eq k doc_id then ids else vids_of doc_id d)
unfolding vids_of
vids_of-put doc_id k ids d =
    ap ids_or_none (find-put doc_id k ids d)
    ∙ if_both (λ o. ids_or_none o ≡ (if text_eq k doc_id then ids else ids_or_none (find doc_id d)))
        (text_eq k doc_id) (λ h. rw h refl) (λ h. rw h refl)

vids_of-pop :
    (doc_id k : Text) (d : Dict Text (List ℕ))
    → vids_of doc_id (pop k d) ≡ (if text_eq k doc_id then [] else vids_of doc_id d)
unfolding vids_of
vids_of-pop doc_id k d =
    ap ids_or_none (find-pop doc_id k d)
    ∙ if_both (λ o. ids_or_none o ≡ (if text_eq k doc_id then [] else ids_or_none (find doc_id d)))
        (text_eq k doc_id) (λ h. rw h refl) (λ h. rw h refl)

id_in-append : (v i : ℕ) (ids : List ℕ) → id_in v (ids ++ i ∷ []) ≡ (i == v || id_in v ids)
unfolding id_in
id_in-append v i [] = refl
id_in-append v i (j ∷ ids) = ground (arith, id_in-append v i ids)

id_in-of_eq : (v i : ℕ) (ids : List ℕ) → (i == v) ≡ true → id_in i ids ≡ true → id_in v ids ≡ true
id_in-of_eq v i ids h k = let same : i ≡ v = ground arith in subst (λ x. id_in x ids ≡ true) same k

id_in-add_id : (v i : ℕ) (ids : List ℕ) → id_in v (add_id i ids) ≡ (i == v || id_in v ids)
id_in-add_id v i ids = elim (Bool-cases (id_in i ids)) [
  | inl old ↦ rw old (elim (Bool-cases (i == v)) [
    | inl same ↦ rw same (id_in-of_eq v i ids same old)
    | inr other ↦ rw other refl
  ])
  | inr new ↦ rw new (id_in-append v i ids)
]

module _ (rows : List VectorRow) (r : VectorRow) (fresh : find_row r.vector_id rows ≡ none) where
  missing_of : (v : ℕ) → (r.vector_id == v) ≡ true → find_row v rows ≡ none
  missing_of v same =
      let id_eq : r.vector_id ≡ v = ground arith in ap (λ x. find_row x rows) (sym id_eq) ∙ fresh

  -- Behind one more row, the row of an id.
  find_row-fresh :
      (v : ℕ) → find_row v (rows ++ r ∷ []) ≡ (if r.vector_id == v then some r else find_row v rows)
  find_row-fresh v = find_row-append v rows (r ∷ []) ∙ elim (Bool-cases (r.vector_id == v)) [
    | inl same ↦ rw (missing_of v same, same) refl
    | inr other ↦ rw other (first_of-none (find_row v rows))
  ]

  put-vids :
      (vids : Dict Text (List ℕ))
      → ((doc_id : Text) (v : ℕ) → id_in v (vids_of doc_id vids) ≡ owns doc_id (find_row v rows))
      → (doc_id : Text) (v : ℕ)
      → id_in v (vids_of doc_id (put r.doc_id (add_id r.vector_id (vids_of r.doc_id vids)) vids))
        ≡ owns doc_id (if r.vector_id == v then some r else find_row v rows)
  put-vids vids h doc_id v =
      ap (id_in v) (vids_of-put doc_id r.doc_id (add_id r.vector_id (vids_of r.doc_id vids)) vids)
      ∙ elim (Bool-cases (text_eq r.doc_id doc_id)) [
        | inl same ↦
            rw (same, id_in-add_id v r.vector_id (vids_of r.doc_id vids), h r.doc_id v)
              (elim (Bool-cases (r.vector_id == v)) [
                | inl new ↦ rw (new, same) refl
                | inr old ↦
                    rw old (ap (λ d. owns d (find_row v rows)) (eq_of_text_eq r.doc_id doc_id same))
              ])
        | inr other ↦
            rw (other, h doc_id v)
              (elim (Bool-cases (r.vector_id == v)) [
                | inl new ↦ rw (new, other, missing_of v new) refl
                | inr old ↦ rw old refl
              ])
      ]

  put-Maps :
      {chunks docs : Dict ℕ Text} {vids : Dict Text (List ℕ)}
      → Maps rows chunks docs vids
      → Maps
          (rows ++ r ∷ [])
          (put r.vector_id r.chunk_id chunks)
          (put r.vector_id r.doc_id docs)
          (put r.doc_id (add_id r.vector_id (vids_of r.doc_id vids)) vids)
  put-Maps {chunks} {docs} {vids} m = record {
    chunks_eq = λ v.
        find-put v r.vector_id r.chunk_id chunks
        ∙ rw (find_row-fresh v, m.chunks_eq v)
            (ap_if chunk_of (r.vector_id == v) (some r) (find_row v rows));
    docs_eq = λ v.
        find-put v r.vector_id r.doc_id docs
        ∙ rw (find_row-fresh v, m.docs_eq v)
            (ap_if doc_of (r.vector_id == v) (some r) (find_row v rows));
    vids_eq = λ doc_id v. rw (find_row-fresh v) (put-vids vids m.vids_eq doc_id v);
  }

-- Rows with ids of their own are put behind the others.
pub put_all-Maps :
    (rows rs : List VectorRow) (chunks docs : Dict ℕ Text) (vids : Dict Text (List ℕ))
    → IsFresh rows rs
    → Maps rows chunks docs vids
    → Maps (rows ++ rs) (put_chunks rs chunks) (put_docs rs docs) (put_vids rs vids)
unfolding put_chunks put_docs put_vids
put_all-Maps rows [] chunks docs vids h m = rw (append-nil rows) m
put_all-Maps rows (r ∷ rs) chunks docs vids (h, hs) m =
    subst
      (λ l. Maps l (put_chunks (r ∷ rs) chunks) (put_docs (r ∷ rs) docs) (put_vids (r ∷ rs) vids))
      (append_assoc rows (r ∷ []) rs)
      (put_all-Maps (rows ++ r ∷ []) rs (put r.vector_id r.chunk_id chunks)
        (put r.vector_id r.doc_id docs)
        (put r.doc_id (add_id r.vector_id (vids_of r.doc_id vids)) vids) hs (put-Maps rows r h m))

find-pop_all :
    (v : ℕ) (ids : List ℕ) (d : Dict ℕ Text)
    → find v (pop_all ids d) ≡ (if id_in v ids then none else find v d)
unfolding pop_all id_in
find-pop_all v [] d = refl
find-pop_all v (i ∷ ids) d =
    find-pop_all v ids (pop i d) ∙ rw (find-pop v i d) (if_or (id_in v ids) (i == v) (find v d))

if_owned :
    (doc_id : Text) (f : Option VectorRow → Option Text) (o : Option VectorRow)
    → f none ≡ none
    → (if owns doc_id o then none else f o) ≡ f (keep (λ r. not (text_eq r.doc_id doc_id)) o)
if_owned doc_id f none h = refl
if_owned doc_id f (some r) h =
    if_both (λ b. b ≡ f (if not (text_eq r.doc_id doc_id) then some r else none))
      (text_eq r.doc_id doc_id) (λ gone. rw gone (sym h)) (λ kept. rw kept refl)

if_self : (b : Bool) → (if b then false else b) ≡ false
if_self true = refl
if_self false = refl

id_in-if :
    (b : Bool) (v : ℕ) (ids : List ℕ)
    → id_in v (if b then [] else ids) ≡ (if b then false else id_in v ids)
unfolding id_in
id_in-if true v ids = refl
id_in-if false v ids = refl

owns-keep :
    (doc_id d : Text) (o : Option VectorRow)
    → (if text_eq d doc_id then false else owns doc_id o)
      ≡ owns doc_id (keep (λ r. not (text_eq r.doc_id d)) o)
owns-keep doc_id d none = if_both (λ b. b ≡ false) (text_eq d doc_id) (λ _. refl) (λ _. refl)
owns-keep doc_id d (some r) = elim (Bool-cases (text_eq r.doc_id d)) [
  | inl gone ↦ rw (gone, eq_of_text_eq r.doc_id d gone) (if_self (text_eq d doc_id))
  | inr kept ↦ rw kept (
      if_both (λ b. b ≡ text_eq r.doc_id doc_id) (text_eq d doc_id)
        (λ same. sym (ap (text_eq r.doc_id) (sym (eq_of_text_eq d doc_id same)) ∙ kept))
        (λ _. refl))
]

-- The ids of a document are popped.
pub pop_all-Maps :
    (doc_id : Text) (rows : List VectorRow) (chunks docs : Dict ℕ Text) (vids : Dict Text (List ℕ))
    → IsDistinct rows
    → Maps rows chunks docs vids
    → Maps
        (index_delete doc_id rows)
        (pop_all (vids_of doc_id vids) chunks)
        (pop_all (vids_of doc_id vids) docs)
        (pop doc_id vids)
unfolding index_delete
pop_all-Maps doc_id rows chunks docs vids distinct m =
    let p : VectorRow → Bool = λ r. not (text_eq r.doc_id doc_id) in
    let left : (v : ℕ) → find_row v (filter p rows) ≡ keep p (find_row v rows) =
      λ v. find_row-filter p v rows distinct in
    record {
      chunks_eq = λ v.
          find-pop_all v (vids_of doc_id vids) chunks
          ∙ rw (left v, m.vids_eq doc_id v, m.chunks_eq v)
              (if_owned doc_id chunk_of (find_row v rows) refl);
      docs_eq = λ v.
          find-pop_all v (vids_of doc_id vids) docs
          ∙ rw (left v, m.vids_eq doc_id v, m.docs_eq v)
              (if_owned doc_id doc_of (find_row v rows) refl);
      vids_eq = λ other v.
          ap (id_in v) (vids_of-pop other doc_id vids)
          ∙ id_in-if (text_eq doc_id other) v (vids_of other vids)
          ∙ rw (left v, m.vids_eq other v) (owns-keep other doc_id (find_row v rows));
    }
