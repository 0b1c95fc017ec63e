-- ===== src/Enrich/Limit.antt =====
-- RateLimit, Normalize, parseRetryAfter and RetryAfterSeconds of internal/enrich/pacer.go. A float64
-- that is finite and not negative is the number of its bits, which are ordered as the floats are; -0
-- is the number 0. A Duration is an int64 of nanoseconds.
pub mod Bounds
pub mod Retry
use holodex.Prelude.{
  ℕ, ◌+◌, ◌-◌, ◌*◌, ◌/◌, ◌%◌, ◌^◌, Str, Bool, true, false, not, ◌&&◌, ◌||◌, Option, none, some,
  ◌==◌, ltb, leb, if◌then◌else◌,
}
use holodex.Go.Strconv.{Int64, plus, minus, parse_int}
use holodex.Go.Unicode.{Unicode}

pub data Float : Type 0 where
  not_a_number infinite below_zero : Float
  bits : ℕ → Float

-- RateLimit
pub record RateLimit : Type 0 where
  pub requests_per_second : Float
  pub burst : Int64

-- A RateLimit whose numbers are finite and not negative
pub record Pace : Type 0 where
  pub rate : ℕ
  pub burst : ℕ

-- defaultRequestsPerSecond: the bits of 2.0
abbrev pub default_rate : ℕ
default_rate = 4611686018427387904

abbrev pub default_burst : ℕ
default_burst = 4

-- minRequestsPerSecond: the bits of 0.1
abbrev pub min_rate : ℕ
min_rate = 4591870180066957722

-- maxRequestsPerSecond: the bits of 50.0
abbrev pub max_rate : ℕ
max_rate = 4632233691727265792

abbrev pub min_burst : ℕ
min_burst = 1

abbrev pub max_burst : ℕ
max_burst = 100

-- The value held to its bounds, and whether it was pulled to an edge.
abbrev pub clamp : ℕ → ℕ → ℕ → ℕ × Bool
clamp lo hi n = if ltb n lo then (lo, true) else if ltb hi n then (hi, true) else (n, false)

abbrev pub or_default : ℕ → ℕ → ℕ
or_default d n = if n == 0 then d else n

abbrev pub held : ℕ → ℕ → Pace × Bool
held rate burst =
    let r = clamp min_rate max_rate (or_default default_rate rate) in
    let b = clamp min_burst max_burst (or_default default_burst burst) in
    (record { rate = r.0; burst = b.0 }, r.1 || b.1)

abbrev pub with_burst : ℕ → Int64 → Option (Pace × Bool)
with_burst rate (plus n) = some (held rate n)
with_burst rate (minus n) = if n == 0 then some (held rate 0) else none

-- Normalize; none is a malformed declaration.
unfoldable pub normalize : RateLimit → Option (Pace × Bool)
normalize rl = elim rl.requests_per_second [
  | not_a_number ↦ none
  | infinite ↦ none
  | below_zero ↦ none
  | bits rate ↦ with_burst rate rl.burst
]

abbrev pub second : ℕ
second = 1000000000

-- 30 * time.Second
abbrev pub default_retry_after : ℕ
default_retry_after = 30000000000

-- 300 * time.Second
abbrev pub max_retry_after : ℕ
max_retry_after = 300000000000

-- The int64 that the low 64 bits of a product are
abbrev pub wrap_bits : ℕ → Int64
wrap_bits w = if ltb w (2 ^ 63) then plus w else minus (2 ^ 64 - w)

abbrev pub wrap : ℕ → Int64
wrap n = wrap_bits (n % 2 ^ 64)

abbrev pub capped : Int64 → Int64
capped (plus d) = if ltb max_retry_after d then plus max_retry_after else plus d
capped (minus d) = minus d

abbrev pub seconds_of : Option Int64 → Int64
seconds_of none = plus default_retry_after
seconds_of (some (minus n)) = plus default_retry_after
seconds_of (some (plus n)) = if n == 0 then plus default_retry_after else capped (wrap (n * second))

-- parseRetryAfter
unfoldable pub parse_retry_after : Unicode → Str → Int64
parse_retry_after u header = seconds_of (parse_int (u.trim_space header))

-- RetryAfterSeconds, of a duration that is not negative
unfoldable pub retry_after_seconds : ℕ → ℕ
retry_after_seconds d = let s = (d + (second - 1)) / second in if ltb s 1 then 1 else s
