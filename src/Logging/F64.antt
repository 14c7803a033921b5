-- ===== src/Logging/F64.antt =====
-- The doubles of the rate limiter in src/logging.rs: IEEE 754 binary64 as Rust has it, for the values that are
-- finite and not negative. A double is the number of times it holds the least positive double, 2 ^ -1074; each
-- operation rounds the exact result to 53 significant bits, to the even one of two that are as near. What does not
-- fit the exponent is not modelled: the seconds of a `Duration` are below 2 ^ 64.
use http_nu.Common.{
  ℕ, zero, suc, ◌+◌, ◌-◌, ◌*◌, ◌/◌, ◌%◌, ◌^◌, Bool, ◌&&◌, ◌||◌, ◌==◌, ltb, if◌then◌else◌,
}

abbrev pub F64 : Type 0
F64 = ℕ

-- The digits of a binary number, of at most `fuel` ones.
unfoldable bits_within : ℕ → ℕ → ℕ
bits_within zero n = 0
bits_within (suc fuel) zero = 0
bits_within (suc fuel) (suc n) = suc (bits_within fuel (suc n / 2))

-- No result is near 2 ^ 2500: a product of two doubles below 2 ^ 64 has less than 1074 + 128 digits.
unfoldable bit_length : ℕ → ℕ
unfolding bits_within
bit_length n = bits_within 2500 n

abbrev rounds_up : ℕ → ℕ → ℕ → Bool
rounds_up m r d = ltb d (2 * r) || (2 * r == d && m % 2 == 1)

abbrev nearest : ℕ → ℕ → ℕ
nearest n d = let m = n / d in if rounds_up m (n % d) d then suc m else m

-- The double next to `n / d`.
unfoldable pub round_div : ℕ → ℕ → F64
unfolding bit_length
round_div n d = let ulp = 2 ^ (bit_length (n / d) - 53) in nearest n (d * ulp) * ulp

unfoldable unit : ℕ
unit = 2 ^ 1074

-- `n as f64`.
unfoldable pub of_nat : ℕ → F64
unfolding round_div unit
of_nat n = round_div (n * unit) 1

unfoldable pub add : F64 → F64 → F64
unfolding round_div
add a b = round_div (a + b) 1

-- For `b` not above `a`.
unfoldable pub sub : F64 → F64 → F64
unfolding round_div
sub a b = round_div (a - b) 1

unfoldable pub mul : F64 → F64 → F64
unfolding round_div unit
mul a b = round_div (a * b) unit

unfoldable pub div : F64 → F64 → F64
unfolding round_div unit
div a b = round_div (a * unit) b

abbrev nanos_per_sec : ℕ
nanos_per_sec = 1_000_000_000

-- `Duration::as_secs_f64` of a duration in nanoseconds.
unfoldable pub as_secs_f64 : ℕ → F64
unfolding of_nat add div
as_secs_f64 d =
    add (of_nat (d / nanos_per_sec)) (div (of_nat (d % nanos_per_sec)) (of_nat nanos_per_sec))
