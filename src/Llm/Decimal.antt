-- ===== src/Llm/Decimal.antt =====
-- Numbers in texts: `str(n)` and `int(digits)`.
use docmesh.Prelude.{
  ℕ, zero, suc, ◌+◌, ◌*◌, ◌/◌, ◌%◌, ◌<◌, ◌≤◌, ◌≡◌, refl, ap, ◌∙◌, Option, none, some, [], ◌∷◌, ◌++◌,
  ltb, if◌then◌else◌, arith, Bool-cases, inl, inr,
}
use docmesh.Text.{Text}

-- The digits of the number, with the last digit first; the fuel bounds their count.
unfoldable pub show_from : ℕ → ℕ → Text → Text
show_from zero n rest = (b'0' + n % 10) ∷ rest
show_from (suc fuel) n rest =
    let more = show_from fuel (n / 10) ((b'0' + n % 10) ∷ rest) in
    if ltb n 10 then (b'0' + n) ∷ rest else more

-- `str(n)`
unfoldable pub show : ℕ → Text
unfolding show_from
show n = show_from n n []

show_from-append :
    (fuel n : ℕ) (xs rest : Text) → show_from fuel n xs ++ rest ≡ show_from fuel n (xs ++ rest)
unfolding show_from
show_from-append zero n xs rest = refl
show_from-append (suc fuel) n xs rest = elim (Bool-cases (ltb n 10)) [
  | inl small ↦ rw small refl
  | inr large ↦ rw large (show_from-append fuel (n / 10) ((b'0' + n % 10) ∷ xs) rest)
]

-- The value of a decimal digit, in the table of the Python runtime: `\d` and `int`.
pub record Digits : Type 0 where
  pub digit : ℕ → Option ℕ

module _ ⦃d : Digits⦄ where
  -- `\d*`, with the value of the digits: what they add to `acc`, and the text behind them.
  unfoldable pub read_digits : ℕ → Text → ℕ × Text
  read_digits acc [] = (acc, [])
  read_digits acc (c ∷ t) = elim (d.digit c) [
    | none ↦ (acc, c ∷ t)
    | some v ↦ read_digits (acc * 10 + v) t
  ]

  -- `\d+`
  unfoldable pub read_number : Text → Option (ℕ × Text)
  unfolding read_digits
  read_number [] = none
  read_number (c ∷ t) = elim (d.digit c) [ none ↦ none | some v ↦ some (read_digits 0 (c ∷ t)) ]

  -- The ten ASCII digits have their values.
  abbrev pub IsAscii : Type 0
  IsAscii = (v : ℕ) → v < 10 → d.digit (b'0' + v) ≡ some v

  -- The text does not go on with a digit.
  abbrev pub Ends : Text → Type 0
  Ends [] = Unit
  Ends (c ∷ t) = d.digit c ≡ none

  read_digits_end : (acc : ℕ) (rest : Text) → Ends rest → read_digits acc rest ≡ (acc, rest)
  unfolding read_digits
  read_digits_end acc [] h = refl
  read_digits_end acc (c ∷ t) h = rw (h, read_digits) refl

  digit_at :
      IsAscii
      → (acc n : ℕ) (rest : Text) → n < 10
      → read_digits acc ((b'0' + n) ∷ rest) ≡ read_digits (acc * 10 + n) rest
  unfolding read_digits
  digit_at ascii acc n rest h = rw (ascii n h, read_digits) refl

  number_at :
      IsAscii
      → (n : ℕ) (rest : Text) → n < 10
      → read_number ((b'0' + n) ∷ rest) ≡ some (read_digits 0 ((b'0' + n) ∷ rest))
  unfolding read_number
  number_at ascii n rest h = rw (ascii n h, read_number) refl

  read_digits-show_from :
      IsAscii
      → (fuel n : ℕ) (rest : Text) → n ≤ fuel
      → read_digits 0 (show_from fuel n rest) ≡ read_digits n rest
  unfolding show_from
  read_digits-show_from ascii zero n rest h =
      digit_at ascii 0 (n % 10) rest (omega arith) ∙ ap (λ k. read_digits k rest) (omega arith)
  read_digits-show_from ascii (suc fuel) n rest h = elim (Bool-cases (ltb n 10)) [
    | inl small ↦
        rw small
          (digit_at ascii 0 n rest (ground arith) ∙ ap (λ k. read_digits k rest) (omega arith))
    | inr large ↦
        let ten : 10 ≤ n = ground arith in
        let whole : n / 10 * 10 + n % 10 ≡ n = omega arith in
        rw large (
          read_digits-show_from ascii fuel (n / 10) _ (omega arith)
          ∙ digit_at ascii (n / 10) (n % 10) rest (omega arith)
          ∙ ap (λ k. read_digits k rest) whole)
  ]

  read_number-show_from :
      IsAscii
      → (fuel n : ℕ) (rest : Text)
      → read_number (show_from fuel n rest) ≡ some (read_digits 0 (show_from fuel n rest))
  unfolding show_from
  read_number-show_from ascii zero n rest = number_at ascii (n % 10) rest (omega arith)
  read_number-show_from ascii (suc fuel) n rest = elim (Bool-cases (ltb n 10)) [
    | inl small ↦ rw small (number_at ascii n rest (ground arith))
    | inr large ↦ rw large (read_number-show_from ascii fuel (n / 10) _)
  ]

  -- A number that is written and read back, where no digit follows it.
  pub read_number-show :
      IsAscii → (n : ℕ) (rest : Text) → Ends rest → read_number (show n ++ rest) ≡ some (n, rest)
  unfolding show
  read_number-show ascii n rest h =
      ap read_number (show_from-append n n [] rest)
      ∙ read_number-show_from ascii n n rest
      ∙ ap some (read_digits-show_from ascii n n rest (omega arith) ∙ read_digits_end n rest h)
