-- ===== src/Vectors/Rows.antt =====
-- Rows of vectors by their ids.
use docmesh.Prelude.{
  ◌≢◌, map, ℕ, ◌≡◌, refl, sym, ap, ◌∙◌, subst, Bool, true, false, Option, none, some, List, [], ◌∷◌,
  ◌++◌, append-nil, append_assoc, All, All-imp, map, filter, ◌==◌, if◌then◌else◌, if_both, arith,
  Bool-cases, inl, inr,
}
use docmesh.Text.{Text, text_eq}
use docmesh.Ingest.Exec.{VectorRow}

abbrev pub find_row : ℕ → List VectorRow → Option VectorRow
find_row v [] = none
find_row v (r ∷ rs) = if r.vector_id == v then some r else find_row v rs

-- No id stands twice.
abbrev pub IsDistinct : List VectorRow → Type 0
IsDistinct [] = Unit
IsDistinct (r ∷ rs) = (find_row r.vector_id rs ≡ none) × IsDistinct rs

-- The new rows have ids of their own.
abbrev pub IsFresh : List VectorRow → List VectorRow → Type 0
IsFresh rows [] = Unit
IsFresh rows (r ∷ rs) = (find_row r.vector_id rows ≡ none) × IsFresh (rows ++ r ∷ []) rs

abbrev pub chunk_of : Option VectorRow → Option Text
chunk_of none = none
chunk_of (some r) = some r.chunk_id

abbrev pub doc_of : Option VectorRow → Option Text
doc_of none = none
doc_of (some r) = some r.doc_id

abbrev pub owns : Text → Option VectorRow → Bool
owns doc_id none = false
owns doc_id (some r) = text_eq r.doc_id doc_id

abbrev pub keep : (VectorRow → Bool) → Option VectorRow → Option VectorRow
keep p none = none
keep p (some r) = if p r then some r else none

abbrev pub first_of : Option VectorRow → Option VectorRow → Option VectorRow
first_of none o = o
first_of (some r) o = some r

pub first_of-none : (o : Option VectorRow) → first_of o none ≡ o
first_of-none none = refl
first_of-none (some r) = refl

pub find_row-append :
    (v : ℕ) (rows rs : List VectorRow)
    → find_row v (rows ++ rs) ≡ first_of (find_row v rows) (find_row v rs)
find_row-append v [] rs = refl
find_row-append v (r ∷ rows) rs = elim (Bool-cases (r.vector_id == v)) [
  | inl here ↦ rw here refl
  | inr later ↦ rw later (find_row-append v rows rs)
]

pub find_row-filter :
    (p : VectorRow → Bool) (v : ℕ) (rows : List VectorRow)
    → IsDistinct rows
    → find_row v (filter p rows) ≡ keep p (find_row v rows)
find_row-filter p v [] d = refl
find_row-filter p v (r ∷ rows) (d, ds) = elim (Bool-cases (r.vector_id == v)) [
  | inl here ↦
      let v_eq : r.vector_id ≡ v = ground arith in
      let behind : find_row v rows ≡ none = ap (λ x. find_row x rows) (sym v_eq) ∙ d in
      rw here (
        if_both (λ l. find_row v l ≡ (if p r then some r else none)) (p r)
          (λ kept. rw (here, kept) refl)
          (λ out. rw out (find_row-filter p v rows ds ∙ ap (keep p) behind)))
  | inr later ↦ rw later (
      if_both (λ l. find_row v l ≡ keep p (find_row v rows)) (p r)
        (λ kept. rw later (find_row-filter p v rows ds)) (λ out. find_row-filter p v rows ds))
]

pub filter-IsDistinct :
    (p : VectorRow → Bool) (rows : List VectorRow) → IsDistinct rows → IsDistinct (filter p rows)
filter-IsDistinct p [] d = tt
filter-IsDistinct p (r ∷ rows) (d, ds) =
    if_both IsDistinct (p r)
      (λ _. (find_row-filter p r.vector_id rows ds ∙ ap (keep p) d, filter-IsDistinct p rows ds))
      (λ _. filter-IsDistinct p rows ds)

append_one-IsDistinct :
    (rows : List VectorRow) (r : VectorRow)
    → IsDistinct rows
    → find_row r.vector_id rows ≡ none
    → IsDistinct (rows ++ r ∷ [])
append_one-IsDistinct [] r d h = (refl, tt)
append_one-IsDistinct (x ∷ rows) r (d, ds) h = elim (Bool-cases (x.vector_id == r.vector_id)) [
  | inl same ↦ let bad : some x ≡ none = rw same at h in absurd cc
  | inr other ↦
      let back : (r.vector_id == x.vector_id) ≡ false = ground arith in
      (
        find_row-append x.vector_id rows (r ∷ []) ∙ rw (d, back) refl,
        append_one-IsDistinct rows r ds (rw other at h),
      )
]

pub append-IsDistinct :
    (rows rs : List VectorRow) → IsDistinct rows → IsFresh rows rs → IsDistinct (rows ++ rs)
append-IsDistinct rows [] d h = rw (append-nil rows) d
append-IsDistinct rows (r ∷ rs) d (h, hs) =
    subst IsDistinct (append_assoc rows (r ∷ []) rs)
      (append-IsDistinct (rows ++ r ∷ []) rs (append_one-IsDistinct rows r d h) hs)

find_row-cons :
    (x r : VectorRow) (rows : List VectorRow)
    → find_row x.vector_id rows ≡ none
    → find_row r.vector_id rows ≡ some r
    → find_row r.vector_id (x ∷ rows) ≡ some r
find_row-cons x r rows d h = elim (Bool-cases (x.vector_id == r.vector_id)) [
  | inl same ↦
      let id_eq : x.vector_id ≡ r.vector_id = ground arith in
      let bad : some r ≡ none = sym h ∙ ap (λ v. find_row v rows) (sym id_eq) ∙ d in absurd cc
  | inr other ↦ rw other h
]

pub find_row_self :
    (rows : List VectorRow)
    → IsDistinct rows
    → All (λ (r : VectorRow). find_row r.vector_id rows ≡ some r) rows
find_row_self [] d = tt
find_row_self (x ∷ rows) (d, ds) = (
  ground arith,
  All-imp (λ (r : VectorRow). find_row r.vector_id rows ≡ some r)
      (λ (r : VectorRow). find_row r.vector_id (x ∷ rows) ≡ some r)
      (λ r h. find_row-cons x r rows d h) rows (find_row_self rows ds),
)

-- The rows as the database knows them, without their vectors.
abbrev pub bare : VectorRow → VectorRow
bare r = record r { vector = [] }

abbrev bare_option : Option VectorRow → Option VectorRow
bare_option none = none
bare_option (some r) = some (bare r)

find_row-bare :
    (v : ℕ) (rows : List VectorRow) → find_row v (map bare rows) ≡ bare_option (find_row v rows)
find_row-bare v [] = refl
find_row-bare v (r ∷ rows) = elim (Bool-cases (r.vector_id == v)) [
  | inl here ↦ rw here refl
  | inr later ↦ rw later (find_row-bare v rows)
]

bare_chunk : (o : Option VectorRow) → chunk_of (bare_option o) ≡ chunk_of o
bare_chunk none = refl
bare_chunk (some r) = refl

bare_doc : (o : Option VectorRow) → doc_of (bare_option o) ≡ doc_of o
bare_doc none = refl
bare_doc (some r) = refl

bare_owns : (doc_id : Text) (o : Option VectorRow) → owns doc_id (bare_option o) ≡ owns doc_id o
bare_owns doc_id none = refl
bare_owns doc_id (some r) = refl

pub chunk_of-bare :
    (v : ℕ) (rows : List VectorRow)
    → chunk_of (find_row v (map bare rows)) ≡ chunk_of (find_row v rows)
chunk_of-bare v rows = ap chunk_of (find_row-bare v rows) ∙ bare_chunk (find_row v rows)

pub doc_of-bare :
    (v : ℕ) (rows : List VectorRow) → doc_of (find_row v (map bare rows)) ≡ doc_of (find_row v rows)
doc_of-bare v rows = ap doc_of (find_row-bare v rows) ∙ bare_doc (find_row v rows)

pub owns-bare :
    (doc_id : Text) (v : ℕ) (rows : List VectorRow)
    → owns doc_id (find_row v (map bare rows)) ≡ owns doc_id (find_row v rows)
owns-bare doc_id v rows =
    ap (owns doc_id) (find_row-bare v rows) ∙ bare_owns doc_id (find_row v rows)

pub bare-IsDistinct : (rows : List VectorRow) → IsDistinct rows → IsDistinct (map bare rows)
bare-IsDistinct [] d = tt
bare-IsDistinct (r ∷ rows) (d, ds) =
    (find_row-bare r.vector_id rows ∙ ap bare_option d, bare-IsDistinct rows ds)

-- A row that stands behind others is found among them.
is_found :
    (v : ℕ) (front : List VectorRow) (r : VectorRow) (rows : List VectorRow)
    → (r.vector_id == v) ≡ true
    → find_row v (front ++ r ∷ rows) ≢ none
is_found v [] r rows h k = let bad : some r ≡ none = rw h at k in absurd cc
is_found v (x ∷ front) r rows h k = elim (Bool-cases (x.vector_id == v)) [
  | inl here ↦ let bad : some x ≡ none = rw here at k in absurd cc
  | inr later ↦ is_found v front r rows h (rw later at k)
]

front_misses :
    (front : List VectorRow) (r : VectorRow) (rows : List VectorRow)
    → IsDistinct (front ++ r ∷ rows)
    → find_row r.vector_id front ≡ none
front_misses [] r rows d = refl
front_misses (x ∷ front) r rows (d, ds) = elim (Bool-cases (x.vector_id == r.vector_id)) [
  | inl same ↦ absurd (is_found x.vector_id front r rows (ground arith) d)
  | inr other ↦ rw other (front_misses front r rows ds)
]

pub distinct-IsFresh :
    (front rows : List VectorRow) → IsDistinct (front ++ rows) → IsFresh front rows
distinct-IsFresh front [] d = tt
distinct-IsFresh front (r ∷ rows) d = (
  front_misses front r rows d,
  distinct-IsFresh (front ++ r ∷ []) rows
      (subst IsDistinct (sym (append_assoc front (r ∷ []) rows)) d),
)

-- The mappings of rows, as the database has them.
abbrev pub mapping : VectorRow → ℕ × Text × Text
mapping r = (r.vector_id, r.chunk_id, r.doc_id)
