-- ===== src/Tests/Keywords.antt =====
-- An index of three chunks, where a score counts the tokens that a chunk shares with the query.
use docmesh.Prelude.{
  ℕ, ◌≤◌, ◌≡◌, refl, some, List, [], ◌∷◌, All, map, filter, length, length-map, arith,
}
use docmesh.Text.{Text, codes, text_in, text_eq}
use docmesh.Search.Keyword.{Okapi, Bm25Index, empty_index, search}
use docmesh.Search.Keyword.Found.{IsOkapi, Change, change, IsFound, corpus_scores, search-AreFound}
use docmesh.Tests.Samples.{ascii, hundredths}
use docmesh.Tests.Overlapping.{falling, falling-IsNumPy}

abbrev shared : List Text → List Text → ℕ
shared tokens doc = length (filter (λ t. text_in t tokens) doc)

abbrev counting : Okapi (List (List Text)) ℕ
counting = record { fit = λ docs. docs; get_scores = λ tokens docs. map (shared tokens) docs }

counting-IsOkapi : IsOkapi counting
counting-IsOkapi tokens docs = length-map (shared tokens) docs

abbrev items : List (Text × Text)
items =
    (codes "c1", codes "red bees")
    ∷ (codes "c2", codes "ants")
    ∷ (codes "c3", codes "Bees, bees")
    ∷ []

abbrev index : Bm25Index (List (List Text))
index = change counting (Change.rebuilt items) (empty_index counting)

two_found :
    search counting falling (codes "BEES!") 3 index ≡ some ((codes "c3", 2) ∷ (codes "c1", 1) ∷ [])
unfolding search change text_eq text_in
two_found = refl

search-AreFound_example :
    (hits : List (Text × ℕ)) × (search counting falling
        (codes "ants")
        2
        (change counting (Change.removed (codes "c1" ∷ [])) index)
      ≡ some hits)
    × (length hits ≤ 2)
    × All
        (IsFound counting (change counting (Change.removed (codes "c1" ∷ [])) index) (
          corpus_scores counting
            (codes "ants")
            (change counting (Change.removed (codes "c1" ∷ [])) index)))
        hits
search-AreFound_example =
    search-AreFound counting falling (codes "ants") 2 (Change.removed (codes "c1" ∷ [])) index
      falling-IsNumPy counting-IsOkapi (omega arith)
