-- ===== src/Search/Service/Known.antt =====
-- The chunks that are reranked are those of the table, and were fused.
use docmesh.Prelude.{
  ℕ, ◌≤◌, ◌≡◌, refl, sym, ap, ◌∙◌, subst, Option, none, some, List, [], ◌∷◌, All, All-append,
  All-imp, map, flat_map, length, length-take, take-All, if_both, Bool-cases, inl, inr, arith,
}
use docmesh.Text.{Text, text_eq, text_eq_self, eq_of_text_eq}
use docmesh.Storage.{Db, Chunk, find_chunk, get_many, option_list}
use docmesh.Graph.{Scores}
use docmesh.Search.Fusion.{FusedHit}
use docmesh.Search.Service.{find_fused, ranks_before, insert_scored, sort_scored, rerank}

find_chunk-id : (i : Text) (rows : List Chunk) (c : Chunk) → find_chunk i rows ≡ some c → c.id ≡ i
unfolding find_chunk
find_chunk-id i [] c h = absurd cc
find_chunk-id i (d ∷ rows) c h = elim (Bool-cases (text_eq d.id i)) [
  | inl here ↦
      let same : some d ≡ some c = rw here at h in
      let same : d ≡ c = cc in subst (λ (e : Chunk). e.id ≡ i) same (eq_of_text_eq d.id i here)
  | inr later ↦ find_chunk-id i rows c (rw later at h)
]

-- The chunks are those of their ids in the rows.
abbrev pub IsRow : List Chunk → Chunk → Type 0
IsRow rows c = find_chunk c.id rows ≡ some c

option_list-IsRow :
    (Q : Text → Type 0) (i : Text) (rows : List Chunk) (o : Option Chunk)
    → find_chunk i rows ≡ o
    → Q i
    → All (λ (c : Chunk). IsRow rows c × Q c.id) (option_list o)
option_list-IsRow Q i rows none h q = tt
option_list-IsRow Q i rows (some c) h q =
    let same : i ≡ c.id = sym (find_chunk-id i rows c h) in
    ((subst (λ (j : Text). find_chunk j rows ≡ some c) same h, subst Q same q), tt)

pub get_many-All :
    (Q : Text → Type 0) (db : Db) (is : List Text)
    → All Q is
    → All (λ (c : Chunk). IsRow db.chunks c × Q c.id) (get_many is db)
unfolding get_many
get_many-All Q db [] qs = tt
get_many-All Q db (i ∷ is) (q, qs) =
    All-append (λ (c : Chunk). IsRow db.chunks c × Q c.id) (option_list (find_chunk i db.chunks))
      (flat_map (λ j. option_list (find_chunk j db.chunks)) is)
      (option_list-IsRow Q i db.chunks (find_chunk i db.chunks) refl q) (get_many-All Q db is qs)

-- A chunk is found among them as it is in the rows.
find_chunk-cons :
    (rows ds : List Chunk) (d c : Chunk)
    → IsRow rows d
    → IsRow rows c
    → IsRow ds c
    → IsRow (d ∷ ds) c
unfolding find_chunk
find_chunk-cons rows ds d c hd hc h = elim (Bool-cases (text_eq d.id c.id)) [
  | inl same ↦ rw same (sym hd ∙ ap (λ j. find_chunk j rows) (eq_of_text_eq d.id c.id same) ∙ hc)
  | inr other ↦ rw other h
]

pub IsRow-self :
    (Q : Text → Type 0) (rows ds : List Chunk)
    → All (λ (c : Chunk). IsRow rows c × Q c.id) ds
    → All (λ (c : Chunk). IsRow ds c × (IsRow rows c × Q c.id)) ds
unfolding find_chunk
IsRow-self Q rows [] hs = tt
IsRow-self Q rows (d ∷ ds) (h, hs) = (
  (rw (text_eq_self d.id) refl, h),
  All-imp (λ (c : Chunk). IsRow ds c × (IsRow rows c × Q c.id))
      (λ (c : Chunk). IsRow (d ∷ ds) c × (IsRow rows c × Q c.id))
      (λ c (h', kq). (find_chunk-cons rows ds d c h.0 kq.0 h', kq)) ds (IsRow-self Q rows ds hs),
)

module _ {W : Type 0} where
  abbrev pub InFusion : List (FusedHit W) → Text → Type 0
  InFusion fused i = (f : FusedHit W) × (find_fused i fused ≡ some f)

  find_fused-cons :
      (f : FusedHit W) (fs : List (FusedHit W)) (i : Text) → InFusion fs i → InFusion (f ∷ fs) i
  unfolding find_fused
  find_fused-cons f fs i (g, h) = elim (Bool-cases (text_eq f.chunk_id i)) [
    | inl here ↦ (f, rw here refl)
    | inr later ↦ (g, rw later h)
  ]

  map-imp :
      (P Q : Text → Type 0)
      → ((i : Text) → P i → Q i)
      → (fs : List (FusedHit W)) → All P (map (λ (f : FusedHit W). f.chunk_id) fs)
      → All Q (map (λ (f : FusedHit W). f.chunk_id) fs)
  map-imp P Q imp fs = All-imp P Q imp (map (λ (f : FusedHit W). f.chunk_id) fs)

  pub ids-InFusion :
      (fs : List (FusedHit W)) → All (InFusion fs) (map (λ (f : FusedHit W). f.chunk_id) fs)
  unfolding find_fused
  ids-InFusion [] = tt
  ids-InFusion (f ∷ fs) = (
    (f, rw (text_eq_self f.chunk_id) refl),
    map-imp (InFusion fs) (InFusion (f ∷ fs)) (find_fused-cons f fs) fs (ids-InFusion fs),
  )

module _ {W : Type 0} ⦃s : Scores W⦄ (P : Text × W → Type 0) where
  insert_scored-All :
      (a : Text × W) (r : List (Text × W)) → P a → All P r → All P (insert_scored a r)
  unfolding insert_scored
  insert_scored-All a [] p ps = (p, tt)
  insert_scored-All a (b ∷ r) p (q, ps) =
      if_both (All P) (ranks_before b a) (λ _. (q, insert_scored-All a r p ps)) (λ _. (p, (q, ps)))

  sort_scored-All : (r : List (Text × W)) → All P r → All P (sort_scored r)
  unfolding sort_scored
  sort_scored-All [] ps = tt
  sort_scored-All (a ∷ r) (p, ps) = insert_scored-All a (sort_scored r) p (sort_scored-All r ps)

module _ {W : Type 0} ⦃s : Scores W⦄ (Q : Text → Type 0) (predict : Text → Text → W)
    (query : Text) where
  scored-All :
      (cs : List Chunk)
      → All (λ (c : Chunk). Q c.id) cs
      → All
          (λ (p : Text × W). Q p.0)
          (map
            (λ ((i, text) : Text × Text). (i, predict query text))
            (map (λ (c : Chunk). (c.id, c.text)) cs))
  scored-All [] qs = tt
  scored-All (c ∷ cs) (q, qs) = (q, scored-All cs qs)

  pub rerank-All :
      (top_n : ℕ) (cs : List Chunk)
      → All (λ (c : Chunk). Q c.id) cs
      → All
          (λ (p : Text × W). Q p.0)
          (rerank predict query (map (λ (c : Chunk). (c.id, c.text)) cs) top_n)
  unfolding rerank
  rerank-All top_n cs qs =
      let scored =
        map (λ ((i, text) : Text × Text). (i, predict query text))
          (map (λ (c : Chunk). (c.id, c.text)) cs) in
      take-All (λ (p : Text × W). Q p.0) top_n (sort_scored scored)
        (sort_scored-All (λ (p : Text × W). Q p.0) scored (scored-All cs qs))

module _ {W : Type 0} ⦃s : Scores W⦄ where
  pub length-rerank :
      (predict : Text → Text → W) (query : Text) (candidates : List (Text × Text)) (top_n : ℕ)
      → length (rerank predict query candidates top_n) ≤ top_n
  unfolding rerank
  length-rerank predict query candidates top_n = omega (
    arith,
    length-take top_n
        (sort_scored (map (λ ((i, text) : Text × Text). (i, predict query text)) candidates)),
  )
