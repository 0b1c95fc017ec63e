-- ===== src/Enrich/Limit/Retry.antt =====
-- The pauses that a header asks for, and what a caller is told of them.
use holodex.Prelude.{
  ℕ, ◌-◌, ◌*◌, ◌≤◌, ◌<◌, ◌≡◌, ◌⊎◌, refl, subst, sym, arith, Str, Bool, true, false, Option, none,
  some, ◌==◌, ltb, if◌then◌else◌, Bool-cases, inl, inr,
}
use holodex.Go.Strconv.{Int64, plus, minus, parse_int}
use holodex.Go.Unicode.{Unicode}
use holodex.Enrich.Limit.{
  second, default_retry_after, max_retry_after, wrap, capped, seconds_of, parse_retry_after,
  retry_after_seconds,
}

-- A positive duration between a second and the cap
abbrev pub IsPause : Int64 → Type 0
IsPause (plus d) = (second ≤ d) × (d ≤ max_retry_after)
IsPause (minus d) = ⊥

-- The seconds that a header asks for do not overflow an int64 of nanoseconds.
abbrev pub IsSmall : Option Int64 → Type 0
IsSmall none = Unit
IsSmall (some (minus n)) = Unit
IsSmall (some (plus n)) = n ≤ 9223372036

wrap_small : (n : ℕ) → n ≤ 9223372036 → wrap (n * second) ≡ plus (n * second)
wrap_small n h = ground arith

-- A pause that parseRetryAfter reads is between one second and the cap of 300 seconds, for a header
-- whose number of seconds is none, not positive, or at most 9223372036.
pub parse_retry_after-IsPause :
    (u : Unicode) (header : Str)
    → IsSmall (parse_int (u.trim_space header))
    → IsPause (parse_retry_after u header)
unfolding parse_retry_after
parse_retry_after-IsPause u header h = by_number (parse_int (u.trim_space header)) h
  where
    capped-IsPause : (n : ℕ) → 1 ≤ n → IsPause (capped (plus (n * second)))
    capped-IsPause n k = by_cap (ltb max_retry_after (n * second)) refl
      where
        by_cap :
            (b : Bool)
            → ltb max_retry_after (n * second) ≡ b
            → IsPause (if b then plus max_retry_after else plus (n * second))
        by_cap true e = (omega arith, omega arith)
        by_cap false e = (omega arith, ground arith)

    by_number : (o : Option Int64) → IsSmall o → IsPause (seconds_of o)
    by_number none k = (omega arith, omega arith)
    by_number (some (minus n)) k = (omega arith, omega arith)
    by_number (some (plus n)) k = by_zero (n == 0) refl
      where
        by_zero :
            (b : Bool)
            → (n == 0) ≡ b
            → IsPause (if b then plus default_retry_after else capped (wrap (n * second)))
        by_zero true e = (omega arith, omega arith)
        by_zero false e =
            subst (λ (x : Int64). IsPause (capped x)) (sym (wrap_small n k))
              (capped-IsPause n (ground arith))

-- A pause of at most 300 seconds is told to a caller as 1 to 300 whole seconds, which cover it, and one
-- second less would not, unless it is one.
pub retry_after_seconds-Covers :
    (d : ℕ)
    → d ≤ max_retry_after
    → ((1 ≤ retry_after_seconds d) × (retry_after_seconds d ≤ 300))
      × ((d ≤ retry_after_seconds d * second)
          × ((retry_after_seconds d ≡ 1) ⊎ ((retry_after_seconds d - 1) * second < d)))
unfolding retry_after_seconds
retry_after_seconds-Covers d h = (
  (ground arith, ground arith),
  (
    ground arith,
    elim (Bool-cases (ltb second d)) [ inl e ↦ inr (ground arith) | inr e ↦ inl (ground arith) ],
  ),
)
