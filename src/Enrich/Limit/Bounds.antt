-- ===== src/Enrich/Limit/Bounds.antt =====
-- The bounds that the contract with providers sets, and the functions that hold to them.
use holodex.Prelude.{
  ℕ, ◌≤◌, ◌≡◌, ◌≢◌, ◌⊎◌, refl, subst, sym, ap, arith, Bool, true, false, ◌||◌, Option, none, some,
  ◌==◌, if◌then◌else◌, inl, inr,
}
use holodex.Go.Strconv.{Int64, plus, minus}
use holodex.Enrich.Limit.{
  Float, not_a_number, infinite, below_zero, bits, RateLimit, Pace, default_rate, default_burst,
  min_rate, max_rate, min_burst, max_burst, clamp, or_default, held, with_burst, normalize,
}

abbrev pub pace : ℕ → ℕ → Pace
pace rate burst = record { rate = rate; burst = burst }

abbrev pub InRange : Pace → Type 0
InRange p =
    ((min_rate ≤ p.rate) × (p.rate ≤ max_rate)) × ((min_burst ≤ p.burst) × (p.burst ≤ max_burst))

-- A declaration as Normalize reads it
abbrev pub declared : Pace → RateLimit
declared p = record { requests_per_second = bits p.rate; burst = plus p.burst }

-- What Normalize gives: nothing, or a pace in range, which normalizes to itself, and is the declared one
-- with its defaults exactly when it was not clamped.
abbrev pub Normal : ℕ → ℕ → Pace × Bool → Type 0
Normal rate burst (p, is_clamped) =
    InRange p
    × ((normalize (declared p) ≡ some (p, false))
        × ((is_clamped ≡ false
              → p ≡ pace (or_default default_rate rate) (or_default default_burst burst))
            × (is_clamped ≡ true
                → p ≢ pace (or_default default_rate rate) (or_default default_burst burst))))

clamp-In : (lo hi n : ℕ) → lo ≤ hi → (lo ≤ (clamp lo hi n).0) × ((clamp lo hi n).0 ≤ hi)
clamp-In lo hi n h = ground arith

clamp_id : (lo hi n : ℕ) → lo ≤ n → n ≤ hi → clamp lo hi n ≡ (n, false)
clamp_id lo hi n h k = ground arith

clamp_kept : (lo hi n : ℕ) → (clamp lo hi n).1 ≡ false → (clamp lo hi n).0 ≡ n
clamp_kept lo hi n h = ground arith

clamp_moved : (lo hi n : ℕ) → (clamp lo hi n).1 ≡ true → (clamp lo hi n).0 ≢ n
clamp_moved lo hi n h = ground arith

or_default_id : (d n : ℕ) → 1 ≤ n → or_default d n ≡ n
or_default_id d n h = ground arith

held_id : (rate burst : ℕ) → InRange (pace rate burst) → held rate burst ≡ (pace rate burst, false)
held_id rate burst ((a, b), (c, d)) =
    rw
      (
        or_default_id default_rate rate (omega (arith, a)),
        or_default_id default_burst burst (omega (arith, c)),
        clamp_id min_rate max_rate rate a b,
        clamp_id min_burst max_burst burst c d,
      )
      refl

held-InRange : (rate burst : ℕ) → InRange (held rate burst).0
held-InRange rate burst = (
  clamp-In min_rate max_rate (or_default default_rate rate) (omega arith),
  clamp-In min_burst max_burst (or_default default_burst burst) (omega arith),
)

held-Normal : (rate burst : ℕ) → Normal rate burst (held rate burst)
unfolding normalize
held-Normal rate burst = (
  held-InRange rate burst,
  (
    ap some (held_id (held rate burst).0.rate (held rate burst).0.burst (held-InRange rate burst)),
    (
      kept (clamp min_rate max_rate r) (clamp min_burst max_burst b)
          (clamp_kept min_rate max_rate r) (clamp_kept min_burst max_burst b),
      moved (clamp min_rate max_rate r) (clamp min_burst max_burst b)
          (clamp_moved min_rate max_rate r) (clamp_moved min_burst max_burst b),
    ),
  ),
)
  where
    r : ℕ
    r = or_default default_rate rate

    b : ℕ
    b = or_default default_burst burst

    kept :
        (x y : ℕ × Bool)
        → (x.1 ≡ false → x.0 ≡ r)
        → (y.1 ≡ false → y.0 ≡ b)
        → (x.1 || y.1) ≡ false
        → pace x.0 y.0 ≡ pace r b
    kept (x, false) (y, false) h k e = rw (h refl, k refl) refl
    kept (x, false) (y, true) h k e = absurd (cc)
    kept (x, true) (y, c) h k e = absurd (cc)

    moved :
        (x y : ℕ × Bool)
        → (x.1 ≡ true → x.0 ≢ r)
        → (y.1 ≡ true → y.0 ≢ b)
        → (x.1 || y.1) ≡ true
        → pace x.0 y.0 ≢ pace r b
    moved (x, true) (y, c) h k e same = h refl (ap (λ (p : Pace). p.rate) same)
    moved (x, false) (y, true) h k e same = k refl (ap (λ (p : Pace). p.burst) same)
    moved (x, false) (y, false) h k e same = absurd (cc)

-- NaN, an infinity, or a number below zero
abbrev pub IsBad : Float → Type 0
IsBad not_a_number = Unit
IsBad infinite = Unit
IsBad below_zero = Unit
IsBad (bits n) = ⊥

abbrev pub IsBelow : Int64 → Type 0
IsBelow (plus n) = ⊥
IsBelow (minus n) = 1 ≤ n

abbrev pub IsMalformed : RateLimit → Type 0
IsMalformed rl = IsBad rl.requests_per_second ⊎ IsBelow rl.burst

abbrev pub IsBurst : Int64 → ℕ → Type 0
IsBurst (plus n) m = n ≡ m
IsBurst (minus n) m = (n ≡ 0) × (m ≡ 0)

abbrev pub Normalized : RateLimit → Option (Pace × Bool) → Type 0
Normalized rl none = IsMalformed rl
Normalized rl (some out) =
    (rate : ℕ) × ((burst : ℕ) × ((rl.requests_per_second ≡ bits rate)
        × (IsBurst rl.burst burst × Normal rate burst out)))

-- Normalize refuses exactly the malformed declarations. Of the others it makes a pace within the
-- contract's bounds, which it would leave as it is; that pace is the declared one, with its defaults,
-- when the result is not marked as clamped, and another one when it is.
pub normalize-Normalized : (rl : RateLimit) → Normalized rl (normalize rl)
unfolding normalize
normalize-Normalized rl = by_rate rl.requests_per_second refl
  where
    by_zero :
        (rate n : ℕ) (b : Bool)
        → (n == 0) ≡ b
        → rl.requests_per_second ≡ bits rate
        → rl.burst ≡ minus n
        → Normalized rl (if b then some (held rate 0) else none)
    by_zero rate n true z e k = (
      rate,
      (
        0,
        (e, (subst (λ (x : Int64). IsBurst x 0) (sym k) (ground arith, refl), held-Normal rate 0)),
      ),
    )
    by_zero rate n false z e k = inr (subst IsBelow (sym k) (ground arith))

    by_burst :
        (rate : ℕ) (i : Int64)
        → rl.requests_per_second ≡ bits rate
        → rl.burst ≡ i
        → Normalized rl (with_burst rate i)
    by_burst rate (plus n) e k =
        (rate, (n, (e, (subst (λ (x : Int64). IsBurst x n) (sym k) refl, held-Normal rate n))))
    by_burst rate (minus n) e k = by_zero rate n (n == 0) refl e k

    by_rate :
        (f : Float)
        → rl.requests_per_second ≡ f
        → Normalized rl (elim f [
          | not_a_number ↦ none
          | infinite ↦ none
          | below_zero ↦ none
          | bits rate ↦ with_burst rate rl.burst
        ])
    by_rate not_a_number e = inl (subst IsBad (sym e) tt)
    by_rate infinite e = inl (subst IsBad (sym e) tt)
    by_rate below_zero e = inl (subst IsBad (sym e) tt)
    by_rate (bits rate) e = by_burst rate rl.burst e refl
