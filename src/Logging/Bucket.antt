-- ===== src/Logging/Bucket.antt =====
-- The token bucket of src/logging.rs, over the doubles of `F64`. An instant is a number of nanoseconds;
-- `duration_since` stops at 0.
use http_nu.Common.{ℕ, ◌-◌, Bool, true, false, min, leb, if◌then◌else◌}
use http_nu.Logging.F64.{F64, of_nat, add, sub, mul, as_secs_f64}

pub record TokenBucket : Type 0 where
  pub tokens : F64
  pub capacity : F64
  pub refill_rate : F64
  pub last_refill : ℕ

unfoldable pub new_bucket : F64 → F64 → ℕ → TokenBucket
new_bucket capacity refill_rate now = record {
  tokens = capacity;
  capacity = capacity;
  refill_rate = refill_rate;
  last_refill = now;
}

-- The tokens after the refill.
unfoldable pub refilled : TokenBucket → ℕ → F64
refilled b now =
    min (add b.tokens (mul (as_secs_f64 (now - b.last_refill)) b.refill_rate)) b.capacity

unfoldable pub try_consume : TokenBucket → ℕ → TokenBucket × Bool
unfolding refilled
try_consume b now =
    let tokens = refilled b now in
    if leb (of_nat 1) tokens
    then (record b { tokens = sub tokens (of_nat 1); last_refill = now }, true)
    else (record b { tokens = tokens; last_refill = now }, false)
