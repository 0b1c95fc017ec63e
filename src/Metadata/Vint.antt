-- ===== src/Metadata/Vint.antt =====
-- readVint, readUint and unknownSize of internal/metadata/matroska.go. A uint64 is a number below
-- 2 ^ 64, and a byte one below 256.
pub mod Bounds
pub mod Encode
use holodex.Prelude.{
  ℕ, zero, suc, ◌+◌, ◌-◌, ◌*◌, ◌/◌, ◌%◌, ◌^◌, Str, Bool, true, false, ◌||◌, Option, none, some,
  List, [], ◌∷◌, ◌==◌, ltb, length, take, if◌then◌else◌,
}

abbrev pub u64 : ℕ
u64 = 2 ^ 64

-- v<<8 | uint64(x)
abbrev pub shift_in : ℕ → ℕ → ℕ
shift_in v x = (v * 256 + x) % u64

unfoldable pub shift_all : ℕ → Str → ℕ
shift_all v [] = v
shift_all v (x ∷ xs) = shift_all (shift_in v x) xs

-- readUint
unfoldable pub read_uint : Str → ℕ
unfolding shift_all
read_uint b = shift_all 0 b

-- The loop that counts the leading zero bits, from a mask on; a byte has eight bits.
unfoldable pub vint_length : ℕ → ℕ → ℕ → ℕ
vint_length zero mask b = 1
vint_length (suc bits) mask b =
    let rest = vint_length bits (mask / 2) b in if b / mask % 2 == 0 then suc rest else 1

-- v & (0xFF >> n)
abbrev pub without_marker : ℕ → ℕ → ℕ
without_marker n b = b % 2 ^ (8 - n)

-- The value of an integer of n bytes, if the text has them
unfoldable pub vint_of : ℕ → ℕ → Str → Bool → Option (ℕ × ℕ)
unfolding shift_all
vint_of n b bs strip =
    if ltb 8 n || ltb (length (b ∷ bs)) n
    then none
    else some (shift_all (if strip then without_marker n b else b) (take (n - 1) bs), n)

-- readVint
unfoldable pub read_vint : Str → Bool → Option (ℕ × ℕ)
read_vint [] strip = none
read_vint (b ∷ bs) strip = if b == 0 then none else vint_of (vint_length 8 128 b) b bs strip

-- unknownSize: 1<<(7*n) - 1
abbrev pub unknown_size : ℕ → ℕ
unknown_size n = 2 ^ (7 * n) - 1
