-- ===== src/RateLimit.antt =====
-- `TokenBucket` of backend/app/core/ratelimit.py. Time is a number of ticks; a token is 60 parts, so
-- that a tick adds `refill_per_minute` parts where a tick is a second. The floats of the source are
-- these parts without rounding.
pub mod Bounds
use docmesh.Prelude.{ℕ, ◌+◌, ◌-◌, ◌*◌, min, Bool, true, false, List, [], ◌∷◌, leb, if◌then◌else◌}

pub record TokenBucket : Type 0 where
  pub capacity : ℕ
  pub tokens : ℕ
  pub rate : ℕ
  pub last : ℕ

-- `__init__`; starts full.
unfoldable pub new_bucket : ℕ → ℕ → ℕ → TokenBucket
new_bucket capacity refill_per_minute now = record {
  capacity = capacity * 60;
  tokens = capacity * 60;
  rate = refill_per_minute;
  last = now;
}

abbrev pub refill : ℕ → TokenBucket → TokenBucket
refill now b = record b { tokens = min b.capacity (b.tokens + (now - b.last) * b.rate); last = now }

-- What `try_acquire` returns: allowed, and else the parts that are missing, which the source divides
-- by the rate.
abbrev pub take_tokens : ℕ → TokenBucket → (Bool × ℕ) × TokenBucket
take_tokens cost b =
    if leb cost b.tokens
    then ((true, 0), record b { tokens = b.tokens - cost })
    else ((false, cost - b.tokens), b)

unfoldable pub try_acquire : ℕ → ℕ → TokenBucket → (Bool × ℕ) × TokenBucket
try_acquire now cost b = take_tokens cost (refill now b)

-- Calls at the given times, each with its cost: the parts that were handed out, and the bucket.
unfoldable pub acquire_all : List (ℕ × ℕ) → TokenBucket → ℕ × TokenBucket
unfolding try_acquire
acquire_all [] b = (0, b)
acquire_all ((now, cost) ∷ calls) b =
    let ((allowed, missing), b') = try_acquire now cost b in
    let (spent, b'') = acquire_all calls b' in ((if allowed then cost else 0) + spent, b'')
