-- ===== src/Ingest/Dedup/Kept.antt =====
-- What `_dedup_and_embed` keeps.
use docmesh.Prelude.{
  ℕ, ◌≡◌, ◌⊎◌, refl, ap, subst, sym, Bool, true, false, ◌||◌, List, [], ◌∷◌, ◌++◌, append-nil,
  append_assoc, if◌then◌else◌, All, Bool-cases, inl, inr, arith,
}
use docmesh.Text.{Text, text_in}
use docmesh.Ingest.Dedup.{exact_flags, set_flag, batch_near, near_pass}

-- The hashes of the drafts that the exact pass does not flag.
abbrev pub unflagged {ℓ} : {A : Type ℓ} → List Bool → List A → List A
unflagged [] xs = []
unflagged (f ∷ fs) [] = []
unflagged (f ∷ fs) (x ∷ xs) = if f then unflagged fs xs else x ∷ unflagged fs xs

-- No text of the list stands among the given ones, nor behind itself.
abbrev pub IsFresh : List Text → List Text → Type 0
IsFresh old [] = Unit
IsFresh old (h ∷ hs) = (text_in h old ≡ false) × IsFresh (h ∷ old) hs

text_in-append :
    (h : Text) (xs ys : List Text) → text_in h (xs ++ ys) ≡ (text_in h xs || text_in h ys)
unfolding text_in
text_in-append h [] ys = refl
text_in-append h (x ∷ xs) ys = ground (arith, text_in-append h xs ys)

-- The texts that the exact pass lets through have hashes that do not stand in the database (nor
-- among those seen before), and that differ from one another.
pub exact_flags-IsFresh :
    (existing seen hs : List Text)
    → IsFresh (seen ++ existing) (unflagged (exact_flags existing seen hs) hs)
unfolding exact_flags
exact_flags-IsFresh existing seen [] = tt
exact_flags-IsFresh existing seen (h ∷ hs) =
    elim (Bool-cases (text_in h existing || text_in h seen)) [
      | inl dup ↦ rw dup (exact_flags-IsFresh existing seen hs)
      | inr new ↦ rw new (
        ground (arith, text_in-append h seen existing),
        exact_flags-IsFresh existing (h ∷ seen) hs,
      )
    ]

-- Each kept vector is near none of the store, and near none that was kept before it.
module _ {Vec : Type 0} (stored_near : Vec → Bool) (near : Vec → Vec → Bool) where
  abbrev pub IsApart : List (ℕ × Vec) → List (ℕ × Vec) → Type 0
  IsApart earlier [] = Unit
  IsApart earlier ((i, v) ∷ kept) =
      (stored_near v ≡ false)
      × All (λ (e : ℕ × Vec). near e.1 v ≡ false) earlier
      × IsApart (earlier ++ (i, v) ∷ []) kept

  batch_near-All :
      (kept : List (ℕ × Vec)) (v : Vec)
      → batch_near stored_near near kept v ≡ false
      → All (λ (e : ℕ × Vec). near e.1 v ≡ false) kept
  unfolding batch_near
  batch_near-All [] v h = tt
  batch_near-All ((i, w) ∷ kept) v h = (ground arith, batch_near-All kept v (ground arith))

  IsApart-snoc :
      (earlier kept : List (ℕ × Vec)) (i : ℕ) (v : Vec)
      → IsApart earlier kept
      → stored_near v ≡ false
      → All (λ (e : ℕ × Vec). near e.1 v ≡ false) (earlier ++ kept)
      → IsApart earlier (kept ++ (i, v) ∷ [])
  IsApart-snoc earlier [] i v h s b = (s, rw append-nil at b, tt)
  IsApart-snoc earlier ((j, w) ∷ kept) i v h s b =
      (h.0, h.1, IsApart-snoc (earlier ++ (j, w) ∷ []) kept i v h.2 s (rw append_assoc b))

  -- The candidate is near the store, or it is among the kept, or near one of them.
  abbrev pub IsCovered : List (ℕ × Vec) → ℕ × Vec → Type 0
  IsCovered [] e = stored_near e.1 ≡ true
  IsCovered (k ∷ kept) e = ((k ≡ e) ⊎ (near k.1 e.1 ≡ true)) ⊎ IsCovered kept e

  IsCovered-stored :
      (kept : List (ℕ × Vec)) (e : ℕ × Vec) → stored_near e.1 ≡ true → IsCovered kept e
  IsCovered-stored [] e h = h
  IsCovered-stored (k ∷ kept) e h = inr (IsCovered-stored kept e h)

  IsCovered-append :
      (kept more : List (ℕ × Vec)) (e : ℕ × Vec) → IsCovered kept e → IsCovered (kept ++ more) e
  IsCovered-append [] more e h = IsCovered-stored more e h
  IsCovered-append (k ∷ kept) more e (inl h) = inl h
  IsCovered-append (k ∷ kept) more e (inr h) = inr (IsCovered-append kept more e h)

  IsCovered-last : (kept : List (ℕ × Vec)) (e : ℕ × Vec) → IsCovered (kept ++ e ∷ []) e
  IsCovered-last [] e = inl (inl refl)
  IsCovered-last (k ∷ kept) e = inr (IsCovered-last kept e)

  batch_near-IsCovered :
      (kept : List (ℕ × Vec)) (e : ℕ × Vec)
      → batch_near stored_near near kept e.1 ≡ true
      → IsCovered kept e
  unfolding batch_near
  batch_near-IsCovered [] e h = absurd cc
  batch_near-IsCovered (k ∷ kept) e h = elim (Bool-cases (near k.1 e.1)) [
    | inl near_k ↦ inl (inr near_k)
    | inr far ↦ inr (batch_near-IsCovered kept e (ground arith))
  ]

  dup-IsCovered :
      (kept : List (ℕ × Vec)) (e : ℕ × Vec)
      → (stored_near e.1 || batch_near stored_near near kept e.1) ≡ true
      → IsCovered kept e
  dup-IsCovered kept e h = elim (Bool-cases (stored_near e.1)) [
    | inl in_store ↦ IsCovered-stored kept e in_store
    | inr other ↦ batch_near-IsCovered kept e (ground arith)
  ]

  abbrev pass : List Bool → List (ℕ × Vec) → List (ℕ × Vec) → List Bool × List (ℕ × Vec)
  pass = near_pass stored_near near

  -- A round of the loop, with the test `dup`.
  abbrev round :
      ℕ → Vec → Bool → List Bool → List (ℕ × Vec) → List (ℕ × Vec) → List Bool × List (ℕ × Vec)
  round idx v dup flags kept rest =
      pass (if dup then set_flag idx flags else flags) (if dup then kept else kept ++ (idx, v) ∷ [])
        rest

  pass-round :
      (flags : List Bool) (kept rest : List (ℕ × Vec)) (idx : ℕ) (v : Vec) (dup : Bool)
      → (stored_near v || batch_near stored_near near kept v) ≡ dup
      → pass flags kept ((idx, v) ∷ rest) ≡ round idx v dup flags kept rest
  unfolding near_pass
  pass-round flags kept rest idx v dup h = ap (λ b. round idx v b flags kept rest) h

  near_pass-IsCovered :
      (flags : List Bool) (kept rest : List (ℕ × Vec)) (e : ℕ × Vec)
      → IsCovered kept e
      → IsCovered (near_pass stored_near near flags kept rest).1 e
  unfolding near_pass
  near_pass-IsCovered flags kept [] e h = h
  near_pass-IsCovered flags kept ((idx, v) ∷ rest) e h =
      elim (Bool-cases (stored_near v || batch_near stored_near near kept v)) [
        | inl dup ↦
            subst (λ r. IsCovered r.1 e) (sym (pass-round flags kept rest idx v true dup))
              (near_pass-IsCovered (set_flag idx flags) kept rest e h)
        | inr new ↦
            subst (λ r. IsCovered r.1 e) (sym (pass-round flags kept rest idx v false new))
              (near_pass-IsCovered flags (kept ++ (idx, v) ∷ []) rest e
                (IsCovered-append kept ((idx, v) ∷ []) e h))
      ]

  -- If it holds of those that are kept before it, it holds of all that the near-duplicate pass keeps:
  -- each kept vector is near nothing in the store, and near none of the vectors kept before it. And it
  -- drops no other: each candidate is kept, or near something in the store or a vector that is kept.
  pub near_pass-IsApart :
      (flags : List Bool) (kept rest : List (ℕ × Vec))
      → IsApart [] kept
      → let out = (near_pass stored_near near flags kept rest).1 in
        IsApart [] out × All (IsCovered out) rest
  unfolding near_pass
  near_pass-IsApart flags kept [] h = (h, tt)
  near_pass-IsApart flags kept ((idx, v) ∷ rest) h =
      elim (Bool-cases (stored_near v || batch_near stored_near near kept v)) [
        | inl dup ↦
            let (apart, covered) = near_pass-IsApart (set_flag idx flags) kept rest h in
            let here =
              near_pass-IsCovered (set_flag idx flags) kept rest (idx, v)
                (dup-IsCovered kept (idx, v) dup) in
            subst (λ r. IsApart [] r.1 × All (IsCovered r.1) ((idx, v) ∷ rest))
              (sym (pass-round flags kept rest idx v true dup)) (apart, (here, covered))
        | inr new ↦
            let kept' = kept ++ (idx, v) ∷ [] in
            let snoc =
              IsApart-snoc [] kept idx v h (ground arith) (batch_near-All kept v (ground arith)) in
            let (apart, covered) = near_pass-IsApart flags kept' rest snoc in
            let here =
              near_pass-IsCovered flags kept' rest (idx, v) (IsCovered-last kept (idx, v)) in
            subst (λ r. IsApart [] r.1 × All (IsCovered r.1) ((idx, v) ∷ rest))
              (sym (pass-round flags kept rest idx v false new)) (apart, (here, covered))
      ]
