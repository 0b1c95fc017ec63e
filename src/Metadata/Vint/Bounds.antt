-- ===== src/Metadata/Vint/Bounds.antt =====
-- The bounds of a variable-length integer that is read.
use holodex.Prelude.{
  ℕ, zero, suc, ◌-◌, ◌*◌, ◌^◌, ◌≤◌, ◌<◌, ◌≡◌, refl, subst, arith, Str, Bool, true, false, ◌||◌,
  Option, none, some, [], ◌∷◌, ◌==◌, ltb, length, take, if◌then◌else◌, All, take-All, length-take,
}
use holodex.Metadata.Vint.{shift_in, shift_all, vint_length, without_marker, vint_of, read_vint}

abbrev pub IsByte : ℕ → Type 0
IsByte b = b < 256

-- p times 256 for each of k bytes
abbrev pub grow : ℕ → ℕ → ℕ
grow p zero = p
grow p (suc k) = grow (p * 256) k

-- Shifting in k bytes multiplies a bound by 256 for each.
pub shift_all-lt :
    (p v : ℕ) (xs : Str) → v < p → All IsByte xs → shift_all v xs < grow p (length xs)
unfolding shift_all
shift_all-lt p v [] h k = h
shift_all-lt p v (x ∷ xs) h (b, k) = shift_all-lt (p * 256) (shift_in v x) xs (omega arith) k

vint_length_pos : (bits mask b : ℕ) → 1 ≤ vint_length bits mask b
unfolding vint_length
vint_length_pos zero mask b = omega arith
vint_length_pos (suc bits) mask b = ground arith

-- What a length says of the integer without its marker: it has 7 bits for each byte.
pub without_marker-grow :
    (n b : ℕ)
    → 1 ≤ n
    → n ≤ 8
    → (without_marker n b < 2 ^ (8 - n)) × (grow (2 ^ (8 - n)) (n - 1) ≡ 2 ^ (7 * n))
without_marker-grow zero b h k = absurd (omega arith)
without_marker-grow (suc zero) b h k = (omega arith, refl)
without_marker-grow (suc (suc zero)) b h k = (omega arith, refl)
without_marker-grow (suc (suc (suc zero))) b h k = (omega arith, refl)
without_marker-grow (suc (suc (suc (suc zero)))) b h k = (omega arith, refl)
without_marker-grow (suc (suc (suc (suc (suc zero))))) b h k = (omega arith, refl)
without_marker-grow (suc (suc (suc (suc (suc (suc zero)))))) b h k = (omega arith, refl)
without_marker-grow (suc (suc (suc (suc (suc (suc (suc zero))))))) b h k = (omega arith, refl)
without_marker-grow (suc (suc (suc (suc (suc (suc (suc (suc zero)))))))) b h k = (omega arith, refl)
without_marker-grow (suc (suc (suc (suc (suc (suc (suc (suc (suc n))))))))) b h k =
    absurd (omega arith)

-- A variable-length integer of n bytes lies in the text; as a size it is below 2 ^ (7 * n).
abbrev pub Bounded : Str → Option (ℕ × ℕ) → Type 0
Bounded b none = Unit
Bounded b (some (v, n)) = (1 ≤ n) × ((n ≤ 8) × ((n ≤ length b) × (v < 2 ^ (7 * n))))

-- A variable-length integer of n bytes lies in the text.
abbrev pub Fits : Str → Option (ℕ × ℕ) → Type 0
Fits b none = Unit
Fits b (some (v, n)) = (1 ≤ n) × ((n ≤ 8) × (n ≤ length b))

pub read_vint-Fits : (b : Str) (strip : Bool) → Fits b (read_vint b strip)
unfolding read_vint vint_of
read_vint-Fits [] strip = tt
read_vint-Fits (b ∷ bs) strip = by_zero (b == 0)
  where
    by_test :
        (n : ℕ) (w : ℕ) (p : Bool)
        → ltb 8 n ≡ p
        → (q : Bool) → ltb (length (b ∷ bs)) n ≡ q
        → 1 ≤ n
        → Fits (b ∷ bs) (if p || q then none else some (w, n))
    by_test n w true e q k one = tt
    by_test n w false e true k one = tt
    by_test n w false e false k one = (one, (ground arith, ground arith))

    by_zero :
        (z : Bool) → Fits (b ∷ bs) (if z then none else vint_of (vint_length 8 128 b) b bs strip)
    by_zero true = tt
    by_zero false =
        let n = vint_length 8 128 b in
        by_test n (shift_all (if strip then without_marker n b else b) (take (n - 1) bs)) (ltb 8 n)
          refl (ltb (length (b ∷ bs)) n) refl (vint_length_pos 8 128 b)

module _ (b : ℕ) (bs : Str) (h : All IsByte bs) where
  size-lt :
      (n : ℕ)
      → 1 ≤ n
      → n ≤ 8
      → n ≤ length (b ∷ bs)
      → shift_all (without_marker n b) (take (n - 1) bs) < 2 ^ (7 * n)
  size-lt n one eight fits =
      let g = without_marker-grow n b one eight in
      let lt =
        shift_all-lt (2 ^ (8 - n)) (without_marker n b) (take (n - 1) bs) g.0
          (take-All IsByte (n - 1) bs h) in
      subst (λ (k : ℕ). shift_all (without_marker n b) (take (n - 1) bs) < k) g.1
        (subst (λ (k : ℕ). shift_all (without_marker n b) (take (n - 1) bs) < grow (2 ^ (8 - n)) k)
          (length-take {0} (n - 1) bs (omega arith)) lt)

  sized-Bounded : (n : ℕ) → 1 ≤ n → Bounded (b ∷ bs) (vint_of n b bs true)
  unfolding vint_of
  sized-Bounded n one = by_test (ltb 8 n) refl (ltb (length (b ∷ bs)) n) refl
    where
      by_test :
          (p : Bool)
          → ltb 8 n ≡ p
          → (q : Bool) → ltb (length (b ∷ bs)) n ≡ q
          → Bounded
              (b ∷ bs)
              (if p || q then none else some (shift_all (without_marker n b) (take (n - 1) bs), n))
      by_test true e q k = tt
      by_test false e true k = tt
      by_test false e false k =
          (one, (ground arith, (ground arith, size-lt n one (ground arith) (ground arith))))

-- A size that readVint decodes from bytes takes at most 8 bytes, all of them in the text, and has at
-- most 7 bits for each.
pub read_vint-Bounded : (b : Str) → All IsByte b → Bounded b (read_vint b true)
unfolding read_vint
read_vint-Bounded [] h = tt
read_vint-Bounded (b ∷ bs) (k, h) = by_zero (b == 0)
  where
    by_zero :
        (z : Bool) → Bounded (b ∷ bs) (if z then none else vint_of (vint_length 8 128 b) b bs true)
    by_zero true = tt
    by_zero false = sized-Bounded b bs h (vint_length 8 128 b) (vint_length_pos 8 128 b)
