-- ===== src/RateLimit/Bounds.antt =====
-- What the token bucket hands out.
use native.Mathlib.Nat.{add-mul}
use docmesh.Prelude.{
  ℕ, ◌+◌, ◌-◌, ◌*◌, ◌≤◌, ◌≡◌, refl, sym, ap, ◌∙◌, subst, true, false, List, [], ◌∷◌, leb,
  if◌then◌else◌, Bool-cases, inl, inr, arith,
}
use docmesh.RateLimit.{TokenBucket, refill, try_acquire, acquire_all}

-- The clock does not go back, from `last` on, and stays by `until`.
abbrev pub IsClock : ℕ → ℕ → List (ℕ × ℕ) → Type 0
IsClock last until [] = last ≤ until
IsClock last until ((now, cost) ∷ calls) = (last ≤ now) × IsClock now until calls

elapsed :
    (last now until rate : ℕ)
    → last ≤ now
    → now ≤ until
    → (until - last) * rate ≡ (now - last) * rate + (until - now) * rate
elapsed last now until rate h k =
    let split : until - last ≡ (now - last) + (until - now) = omega arith in
    ap (λ n. n * rate) split ∙ add-mul (now - last) (until - now) rate

until_ge : (calls : List (ℕ × ℕ)) (last until : ℕ) → IsClock last until calls → last ≤ until
until_ge [] last until h = h
until_ge ((now, cost) ∷ calls) last until h = omega (arith, h.0, until_ge calls now until h.1)

acquire_bound :
    (now cost : ℕ) (b : TokenBucket)
    → (if (try_acquire now cost b).0.0 then cost else 0) + (try_acquire now cost b).1.tokens
      ≤ b.tokens + (now - b.last) * b.rate
unfolding try_acquire
acquire_bound now cost b = elim (Bool-cases (leb cost (refill now b).tokens)) [
  | inl enough ↦ rw enough (ground arith)
  | inr short ↦ rw short (ground arith)
]

try_acquire-last :
    (now cost : ℕ) (b : TokenBucket)
    → ((try_acquire now cost b).1.last ≡ now) × ((try_acquire now cost b).1.rate ≡ b.rate)
unfolding try_acquire
try_acquire-last now cost b = elim (Bool-cases (leb cost (refill now b).tokens)) [
  | inl enough ↦ rw enough (refl, refl)
  | inr short ↦ rw short (refl, refl)
]

-- While the clock does not go back, the tokens that the calls were given are at most those that the
-- bucket had and those that the time until then adds.
pub acquire_all-bound :
    (calls : List (ℕ × ℕ)) (until : ℕ) (b : TokenBucket)
    → IsClock b.last until calls
    → (acquire_all calls b).0 ≤ b.tokens + (until - b.last) * b.rate
unfolding acquire_all
acquire_all-bound [] until b h = omega arith
acquire_all-bound ((now, cost) ∷ calls) until b h =
    let b' = (try_acquire now cost b).1 in
    let (last_eq, rate_eq) = try_acquire-last now cost b in
    let first = acquire_bound now cost b in
    let rest : (acquire_all calls b').0 ≤ b'.tokens + (until - now) * b.rate =
      subst (λ l. (acquire_all calls b').0 ≤ b'.tokens + (until - l) * b.rate) last_eq
        (subst (λ q. (acquire_all calls b').0 ≤ b'.tokens + (until - b'.last) * q) rate_eq
          (acquire_all-bound calls until b'
            (subst (λ l. IsClock l until calls) (sym last_eq) h.1))) in
    let sum = elapsed b.last now until b.rate h.0 (until_ge calls now until h.1) in
    omega (arith, first, rest, sum)

-- A call that is refused tells what is missing: once the time adds that, and the bucket is large
-- enough, the call is allowed.
pub try_acquire-retry :
    (now later cost : ℕ) (b : TokenBucket)
    → cost ≤ b.capacity
    → (try_acquire now cost b).0.0 ≡ false
    → (try_acquire now cost b).0.1 ≤ (later - now) * b.rate
    → (try_acquire later cost (try_acquire now cost b).1).0.0 ≡ true
unfolding try_acquire
try_acquire-retry now later cost b fits refused waited =
    elim (Bool-cases (leb cost (refill now b).tokens)) [
      | inl enough ↦ let bad : true ≡ false = rw enough at refused in cc
      | inr short ↦
          let missing : cost - (refill now b).tokens ≤ (later - now) * b.rate =
            rw short at waited in
          rw short (ground arith)
    ]
