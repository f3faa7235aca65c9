-- ===== src/Tests/Samples.antt =====
-- Small inputs: an ASCII table of characters, scores that are numbers, and some units.
use docmesh.Prelude.{
  ℕ, ◌+◌, ◌-◌, ◌*◌, ◌/◌, ltb, Bool, ◌&&◌, ◌||◌, none, some, List, [], ◌∷◌, map, leb, ◌==◌,
  if◌then◌else◌,
}
use docmesh.Text.{Text, Unicode}
use docmesh.Chunker.Oversized.{Piece}
use docmesh.Llm.Decimal.{Digits, show}
use docmesh.Graph.{Scores}

abbrev ascii_upper : ℕ → Bool
ascii_upper c = leb b'A' c && leb c b'Z'

instance abbrev pub ascii : Unicode
ascii = record {
  is_space = λ c. c == 32 || (leb 9 c && leb c 13);
  is_upper = ascii_upper;
  is_lower = λ c. leb b'a' c && leb c b'z';
  lower = λ t. map (λ c. if ascii_upper c then c + 32 else c) t;
}

instance abbrev pub ascii_digits : Digits
ascii_digits = record { digit = λ c. if leb b'0' c && leb c b'9' then some (c - b'0') else none }

-- Hundredths, for scores.
instance abbrev pub hundredths : Scores ℕ
hundredths = record {
  nought = 0;
  one = 100;
  add = λ x y. x + y;
  sub = λ x y. x - y;
  mul = λ x y. x * y / 100;
  div = λ x y. x * 100 / y;
  lt = ltb;
  round = λ x n. x;
  fixed = show;
}

abbrev pub piece : ℕ → ℕ → ℕ → Piece
piece s e n = record { char_start = s; char_end = e; page = none; tokens = n }

-- Five units of 3, 2, 2, 9 and 1 tokens.
abbrev pub five : List Piece
five = piece 0 10 3 ∷ piece 11 20 2 ∷ piece 21 30 2 ∷ piece 31 60 9 ∷ piece 61 65 1 ∷ []

-- "Hi Dr. Bo. Go!  x"
abbrev pub hello : Text
hello =
    b'H' ∷ b'i' ∷ 32 ∷ b'D' ∷ b'r' ∷ b'.' ∷ 32 ∷ b'B' ∷ b'o' ∷ b'.' ∷ 32 ∷ b'G' ∷ b'o' ∷ b'!' ∷ 32
    ∷ 32 ∷ b'X' ∷ []
