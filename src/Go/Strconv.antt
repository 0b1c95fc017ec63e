-- ===== src/Go/Strconv.antt =====
-- Package strconv: ParseInt in base 10 to 64 bits, and FormatInt of a number that is not negative.
use holodex.Prelude.{
  ℕ, zero, suc, ◌+◌, ◌-◌, ◌*◌, ◌/◌, ◌%◌, ◌^◌, Str, Bool, true, false, ◌&&◌, Option, none, some, [],
  ◌∷◌, ◌==◌, ltb, leb, if◌then◌else◌,
}

unfoldable pub is_digit : ℕ → Bool
is_digit c = leb b'0' c && leb c b'9'

-- The digits' number, or none on a byte that is no digit.
unfoldable pub digits_value : ℕ → Str → Option ℕ
unfolding is_digit
digits_value n [] = some n
digits_value n (c ∷ s) =
    let rest = digits_value (n * 10 + (c - b'0')) s in if is_digit c then rest else none

unfoldable pub parse_digits : Str → Option ℕ
unfolding digits_value
parse_digits [] = none
parse_digits (c ∷ s) = digits_value 0 (c ∷ s)

-- An int64: `minus n` is -n.
pub data Int64 : Type 0 where
  plus : ℕ → Int64
  minus : ℕ → Int64

abbrev in_range : Bool → Option ℕ → Option Int64
in_range neg none = none
in_range true (some n) = if leb n (2 ^ 63) then some (minus n) else none
in_range false (some n) = if ltb n (2 ^ 63) then some (plus n) else none

-- ParseInt(s, 10, 64); Atoi where an int has 64 bits
unfoldable pub parse_int : Str → Option Int64
unfolding parse_digits
parse_int [] = none
parse_int (c ∷ s) =
    if c == b'-'
    then in_range true (parse_digits s)
    else if c == b'+'
    then in_range false (parse_digits s)
    else in_range false (parse_digits (c ∷ s))

-- The value of a number that a caller holds to `lo ≤ n ≤ hi`, with lo not negative.
unfoldable pub within : ℕ → ℕ → Option Int64 → Option ℕ
within lo hi none = none
within lo hi (some (plus n)) = if leb lo n && leb n hi then some n else none
within lo hi (some (minus n)) = if n == 0 && lo == 0 then some 0 else none

-- The decimal digits, the last one first.
unfoldable pub digits_from : ℕ → ℕ → Str
digits_from zero n = []
digits_from (suc fuel) n =
    let rest = digits_from fuel (n / 10) in
    if ltb n 10 then (n + b'0') ∷ [] else (n % 10 + b'0') ∷ rest

unfoldable pub backwards : Str → Str → Str
backwards [] out = out
backwards (c ∷ s) out = backwards s (c ∷ out)

-- FormatInt(n, 10) for n ≥ 0: n has at most n + 1 digits.
unfoldable pub format_int : ℕ → Str
unfolding digits_from backwards
format_int n = backwards (digits_from (suc n) n) []
