-- ===== src/Metadata/Vint/Encode.antt =====
-- An encoder of variable-length integers, as an independent description of what readVint reads.
use holodex.Prelude.{
  ℕ, zero, suc, ◌+◌, ◌-◌, ◌*◌, ◌/◌, ◌%◌, ◌^◌, ◌≤◌, ◌<◌, ◌≡◌, refl, ap, ◌∙◌, arith, Str, Bool, true,
  false, ◌||◌, some, [], ◌∷◌, ◌++◌, ◌==◌, ltb, length, length-append, take, if◌then◌else◌,
  Bool-cases, inl, inr, subst, sym, ==_iff,
}
use holodex.Metadata.Vint.{
  u64, shift_in, shift_all, vint_length, without_marker, vint_of, read_vint,
}

-- The number of bytes that an integer is written in.
pub data Width : Type 0 where
  w1 w2 w3 w4 w5 w6 w7 w8 : Width

abbrev pub bytes_of : Width → ℕ
bytes_of w1 = 1
bytes_of w2 = 2
bytes_of w3 = 3
bytes_of w4 = 4
bytes_of w5 = 5
bytes_of w6 = 6
bytes_of w7 = 7
bytes_of w8 = 8

-- The bytes of a number, the highest first.
abbrev pub big_endian : ℕ → ℕ → Str
big_endian zero v = []
big_endian (suc k) v = (v / 256 ^ k) ∷ big_endian k (v % 256 ^ k)

-- The bytes behind the first one.
abbrev pub tail_of : Width → ℕ
tail_of w = bytes_of w - 1

-- The first byte: the marker bit, and the highest bits of the number behind it.
abbrev pub lead : Width → ℕ → ℕ
lead w v = 2 ^ (8 - bytes_of w) + v / 256 ^ tail_of w

abbrev pub write_vint : Width → ℕ → Str
write_vint w v = lead w v ∷ big_endian (tail_of w) (v % 256 ^ tail_of w)

-- What an ID keeps of the marker, and a size does not.
abbrev pub marked : Bool → Width → ℕ → ℕ
marked true w v = v
marked false w v = v + 2 ^ (7 * bytes_of w)

-- The length by the value of the first byte.
abbrev length_of : ℕ → ℕ
length_of b =
    if ltb b 2
    then 8
    else if ltb b 4
    then 7
    else if ltb b 8
    then 6
    else if ltb b 16
    then 5
    else if ltb b 32
    then 4
    else if ltb b 64
    then 3
    else if ltb b 128
    then 2
    else 1

-- A length that differs from the loop's, for some byte below a bound.
wrong_length : ℕ → Bool
wrong_length zero = false
wrong_length (suc k) =
    let lower = wrong_length k in
    if k == 0 || vint_length 8 128 k == length_of k then lower else true

right_length :
    (k b : ℕ)
    → b < k
    → wrong_length k ≡ false
    → (b == 0 || vint_length 8 128 b == length_of b) ≡ true
unfolding wrong_length
right_length zero b lt none_wrong = absurd (omega arith)
right_length (suc k) b lt none_wrong = elim (Bool-cases (b == k)) [
  | inl same ↦
      subst (λ (c : ℕ). (c == 0 || vint_length 8 128 c == length_of c) ≡ true)
        (sym ((==_iff b k).0 same)) (ground arith)
  | inr other ↦ right_length k b (ground arith) (ground arith)
]

length_table : wrong_length 256 ≡ false
unfolding wrong_length vint_length
length_table = refl

vint_length-lead :
    (w : Width) (v : ℕ) → v < 2 ^ (7 * bytes_of w) → vint_length 8 128 (lead w v) ≡ bytes_of w
vint_length-lead w v h = by_table w v h (right_length 256 (lead w v) (small w v h) length_table)
  where
    small : (w : Width) (v : ℕ) → v < 2 ^ (7 * bytes_of w) → lead w v < 256
    small w1 v h = omega arith
    small w2 v h = omega arith
    small w3 v h = omega arith
    small w4 v h = omega arith
    small w5 v h = omega arith
    small w6 v h = omega arith
    small w7 v h = omega arith
    small w8 v h = omega arith

    by_table :
        (w : Width) (v : ℕ)
        → v < 2 ^ (7 * bytes_of w)
        → (lead w v == 0 || vint_length 8 128 (lead w v) == length_of (lead w v)) ≡ true
        → vint_length 8 128 (lead w v) ≡ bytes_of w
    by_table w1 v h e = ground arith
    by_table w2 v h e = ground arith
    by_table w3 v h e = ground arith
    by_table w4 v h e = ground arith
    by_table w5 v h e = ground arith
    by_table w6 v h e = ground arith
    by_table w7 v h e = ground arith
    by_table w8 v h e = ground arith

-- Shifting in the bytes of a number is the positional value.
shift_all-big_endian :
    (k s r : ℕ)
    → k ≤ 7
    → r < 256 ^ k
    → (s + 1) * 256 ^ k ≤ u64
    → shift_all s (big_endian k r) ≡ s * 256 ^ k + r
unfolding shift_all
shift_all-big_endian zero s r a b c = omega arith
shift_all-big_endian (suc zero) s r a b c =
    omega (arith, shift_all-big_endian zero (shift_in s (r / 256 ^ 0)) (r % 256 ^ 0))
shift_all-big_endian (suc (suc zero)) s r a b c =
    omega (arith, shift_all-big_endian (suc zero) (shift_in s (r / 256 ^ 1)) (r % 256 ^ 1))
shift_all-big_endian (suc (suc (suc zero))) s r a b c =
    omega (arith, shift_all-big_endian (suc (suc zero)) (shift_in s (r / 256 ^ 2)) (r % 256 ^ 2))
shift_all-big_endian (suc (suc (suc (suc zero)))) s r a b c =
    omega
      (arith, shift_all-big_endian (suc (suc (suc zero))) (shift_in s (r / 256 ^ 3)) (r % 256 ^ 3))
shift_all-big_endian (suc (suc (suc (suc (suc zero))))) s r a b c = omega (
  arith,
  shift_all-big_endian (suc (suc (suc (suc zero)))) (shift_in s (r / 256 ^ 4)) (r % 256 ^ 4),
)
shift_all-big_endian (suc (suc (suc (suc (suc (suc zero)))))) s r a b c = omega (
  arith,
  shift_all-big_endian (suc (suc (suc (suc (suc zero))))) (shift_in s (r / 256 ^ 5)) (r % 256 ^ 5),
)
shift_all-big_endian (suc (suc (suc (suc (suc (suc (suc zero))))))) s r a b c = omega (
  arith,
  shift_all-big_endian (suc (suc (suc (suc (suc (suc zero)))))) (shift_in s (r / 256 ^ 6))
      (r % 256 ^ 6),
)
shift_all-big_endian (suc (suc (suc (suc (suc (suc (suc (suc k)))))))) s r a b c =
    absurd (omega arith)

pub length-big_endian : (k r : ℕ) → length (big_endian k r) ≡ k
length-big_endian zero r = refl
length-big_endian (suc k) r = ap suc (length-big_endian k (r % 256 ^ k))

take-big_endian : (k r : ℕ) (ys : Str) → take k (big_endian k r ++ ys) ≡ big_endian k r
take-big_endian zero r ys = refl
take-big_endian (suc k) r ys = ap (λ xs. (r / 256 ^ k) ∷ xs) (take-big_endian k (r % 256 ^ k) ys)

-- The value that the first byte and the bytes behind it make.
abbrev start_of : Bool → Width → ℕ → ℕ
start_of strip w v = if strip then without_marker (bytes_of w) (lead w v) else lead w v

shift_all-start :
    (strip : Bool) (w : Width) (v : ℕ)
    → v < 2 ^ (7 * bytes_of w)
    → shift_all (start_of strip w v) (big_endian (tail_of w) (v % 256 ^ tail_of w))
      ≡ marked strip w v
shift_all-start true w1 v h =
    omega (arith, shift_all-big_endian 0 (start_of true w1 v) (v % 256 ^ 0))
shift_all-start true w2 v h =
    omega (arith, shift_all-big_endian 1 (start_of true w2 v) (v % 256 ^ 1))
shift_all-start true w3 v h =
    omega (arith, shift_all-big_endian 2 (start_of true w3 v) (v % 256 ^ 2))
shift_all-start true w4 v h =
    omega (arith, shift_all-big_endian 3 (start_of true w4 v) (v % 256 ^ 3))
shift_all-start true w5 v h =
    omega (arith, shift_all-big_endian 4 (start_of true w5 v) (v % 256 ^ 4))
shift_all-start true w6 v h =
    omega (arith, shift_all-big_endian 5 (start_of true w6 v) (v % 256 ^ 5))
shift_all-start true w7 v h =
    omega (arith, shift_all-big_endian 6 (start_of true w7 v) (v % 256 ^ 6))
shift_all-start true w8 v h =
    omega (arith, shift_all-big_endian 7 (start_of true w8 v) (v % 256 ^ 7))
shift_all-start false w1 v h =
    omega (arith, shift_all-big_endian 0 (start_of false w1 v) (v % 256 ^ 0))
shift_all-start false w2 v h =
    omega (arith, shift_all-big_endian 1 (start_of false w2 v) (v % 256 ^ 1))
shift_all-start false w3 v h =
    omega (arith, shift_all-big_endian 2 (start_of false w3 v) (v % 256 ^ 2))
shift_all-start false w4 v h =
    omega (arith, shift_all-big_endian 3 (start_of false w4 v) (v % 256 ^ 3))
shift_all-start false w5 v h =
    omega (arith, shift_all-big_endian 4 (start_of false w5 v) (v % 256 ^ 4))
shift_all-start false w6 v h =
    omega (arith, shift_all-big_endian 5 (start_of false w6 v) (v % 256 ^ 5))
shift_all-start false w7 v h =
    omega (arith, shift_all-big_endian 6 (start_of false w7 v) (v % 256 ^ 6))
shift_all-start false w8 v h =
    omega (arith, shift_all-big_endian 7 (start_of false w8 v) (v % 256 ^ 7))

pub bytes_of-le : (w : Width) → (1 ≤ bytes_of w) × (bytes_of w ≤ 8)
bytes_of-le w = ground arith

lead_pos : (w : Width) (v : ℕ) → (lead w v == 0) ≡ false
lead_pos w v = ground arith

-- A text of at least that many bytes has the integer.
vint_of-take :
    (n b : ℕ) (bs : Str) (strip : Bool)
    → n ≤ 8
    → n ≤ length (b ∷ bs)
    → vint_of n b bs strip
      ≡ some (shift_all (if strip then without_marker n b else b) (take (n - 1) bs), n)
unfolding vint_of
vint_of-take n b bs strip h k = ground arith

-- Reading gives back a number that is written in as many bytes as its width says, whatever follows:
-- a size without the marker, an ID with it.
pub read_vint-write_vint :
    (strip : Bool) (w : Width) (v : ℕ) (rest : Str)
    → v < 2 ^ (7 * bytes_of w)
    → read_vint (write_vint w v ++ rest) strip ≡ some (marked strip w v, bytes_of w)
unfolding read_vint
read_vint-write_vint strip w v rest h =
    rw (lead_pos w v, vint_length-lead w v h)
      (vint_of-take (bytes_of w) (lead w v) (low ++ rest) strip (bytes_of-le w).1 (
          omega (
            arith,
            length-append {0} low rest,
            length-big_endian (tail_of w) (v % 256 ^ tail_of w),
            bytes_of-le w,
          ))
        ∙ ap (λ (xs : Str). some (shift_all (start_of strip w v) xs, bytes_of w))
            (take-big_endian (tail_of w) (v % 256 ^ tail_of w) rest)
        ∙ ap (λ (k : ℕ). some (k, bytes_of w)) (shift_all-start strip w v h))
  where
    low : Str
    low = big_endian (tail_of w) (v % 256 ^ tail_of w)
