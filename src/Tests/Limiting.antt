-- ===== src/Tests/Limiting.antt =====
-- The token bucket with room for 2 tokens, and 30 tokens a minute.
use docmesh.Prelude.{ℕ, ◌≡◌, ◌≤◌, ◌*◌, ◌+◌, ◌-◌, refl, false, List, [], ◌∷◌, arith}
use docmesh.RateLimit.{TokenBucket, new_bucket, try_acquire, acquire_all}
use docmesh.RateLimit.Bounds.{acquire_all-bound}

abbrev bucket : TokenBucket
bucket = record { capacity = 120; tokens = 0; rate = 30; last = 5 }

-- Refused at 5, allowed at 7, refused at 8.
abbrev calls : List (ℕ × ℕ)
calls = (5, 60) ∷ (7, 60) ∷ (8, 60) ∷ []

new_full : (new_bucket 2 30 5).tokens ≡ 120
unfolding new_bucket
new_full = refl

one_allowed : (acquire_all calls bucket).0 ≡ 60
unfolding acquire_all
one_allowed = refl

acquire_all-bound_example : (acquire_all calls bucket).0 ≤ 0 + (9 - 5) * 30
acquire_all-bound_example =
    acquire_all-bound calls 9 bucket (omega arith, (omega arith, (omega arith, omega arith)))

refused : (try_acquire 5 60 bucket).0 ≡ (false, 60)
unfolding try_acquire
refused = refl
