-- ===== src/Dict.antt =====
-- Dictionaries of the source as lists of entries with distinct keys, in the order of insertion.
use docmesh.Prelude.{
  ℕ, ◌≡◌, refl, sym, ap, ◌∙◌, Bool, true, false, not, Option, none, some, List, [], ◌∷◌, filter,
  ◌==◌, if◌then◌else◌, if_both, subst, All, arith, Bool-cases, inl, inr,
}
use docmesh.Text.{Text, text_eq, text_eq_self, eq_of_text_eq}

-- A type of keys, with `==`.
pub record Key (K : Type 0) : Type 0 where
  pub same : K → K → Bool
  pub same_self : (a : K) → same a a ≡ true
  pub eq_of_same : (a b : K) → same a b ≡ true → a ≡ b

pub nat-same_self : (a : ℕ) → (a == a) ≡ true
nat-same_self a = ground arith

pub nat-eq_of_same : (a b : ℕ) → (a == b) ≡ true → a ≡ b
nat-eq_of_same a b h = ground arith

instance abbrev pub nat_key : Key ℕ
nat_key = record { same = ◌==◌; same_self = nat-same_self; eq_of_same = nat-eq_of_same }

instance abbrev pub text_key : Key Text
text_key = record { same = text_eq; same_self = text_eq_self; eq_of_same = eq_of_text_eq }

abbrev pub Dict : Type 0 → Type 0 → Type 0
Dict K V = List (K × V)

-- A branch that is not reached.
if_again {ℓ} :
    {A : Type ℓ} (b : Bool) (x y z : A)
    → (if b then x else y) ≡ (if b then x else if b then z else y)
if_again true x y z = refl
if_again false x y z = refl

if_same {ℓ} : {A : Type ℓ} (b : Bool) (x : A) → x ≡ (if b then x else x)
if_same true x = refl
if_same false x = refl

-- A key that is not the one that is put or popped.
apart_of :
    {K : Type 0} ⦃key : Key K⦄ (i j k : K)
    → key.same k i ≡ true
    → key.same j k ≡ false
    → key.same j i ≡ false
apart_of ⦃key⦄ i j k same other = sym (ap (key.same j) (key.eq_of_same k i same)) ∙ other

module _ {K V : Type 0} ⦃key : Key K⦄ where
  -- `d.get(k)`
  unfoldable pub find : K → Dict K V → Option V
  find k [] = none
  find k ((j, u) ∷ d) = let rest = find k d in if key.same j k then some u else rest

  -- `d[k] = v`
  unfoldable pub put : K → V → Dict K V → Dict K V
  put k v [] = (k, v) ∷ []
  put k v ((j, u) ∷ d) = let rest = put k v d in if key.same j k then (j, v) ∷ d else (j, u) ∷ rest

  -- `d.pop(k, None)`
  unfoldable pub pop : K → Dict K V → Dict K V
  pop k d = filter (λ (e : K × V). not (key.same e.0 k)) d

  pub find-put :
      (i k : K) (v : V) (d : Dict K V)
      → find i (put k v d) ≡ (if key.same k i then some v else find i d)
  unfolding find put
  find-put i k v [] = refl
  find-put i k v ((j, u) ∷ d) = elim (Bool-cases (key.same j k)) [
    | inl here ↦
        rw (here, key.eq_of_same j k here) (if_again (key.same k i) (some v) (find i d) (some u))
    | inr other ↦ rw other (elim (Bool-cases (key.same k i)) [
      | inl same ↦ rw (apart_of i j k same other, find-put i k v d, same) refl
      | inr apart ↦ rw (find-put i k v d, apart) refl
    ])
  ]

  pub find-pop :
      (i k : K) (d : Dict K V) → find i (pop k d) ≡ (if key.same k i then none else find i d)
  unfolding find pop
  find-pop i k [] = if_same (key.same k i) none
  find-pop i k ((j, u) ∷ d) = elim (Bool-cases (key.same j k)) [
    | inl here ↦
        rw (here, key.eq_of_same j k here)
          (find-pop i k d ∙ if_again (key.same k i) none (find i d) (some u))
    | inr other ↦ rw other (elim (Bool-cases (key.same k i)) [
      | inl same ↦ rw (apart_of i j k same other, same) (find-pop i k d ∙ rw same refl)
      | inr apart ↦
          rw apart (ap (λ o. if key.same j i then some u else o) (find-pop i k d ∙ rw apart refl))
    ])
  ]

  pub put-All :
      (P : K × V → Type 0) (k : K) (v : V) (d : Dict K V) → P (k, v) → All P d → All P (put k v d)
  unfolding put
  put-All P k v [] h hs = (h, tt)
  put-All P k v ((j, u) ∷ d) h (g, hs) =
      if_both (All P) (key.same j k)
        (λ same. (subst (λ i. P (i, v)) (sym (key.eq_of_same j k same)) h, hs))
        (λ _. (g, put-All P k v d h hs))
