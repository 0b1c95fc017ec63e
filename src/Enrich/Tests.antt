-- ===== src/Enrich/Tests.antt =====
-- Paces and pauses.
use holodex.Prelude.{
  ◌=s◌, ℕ, ◌+◌, ◌-◌, ◌≤◌, ◌<◌, ◌*◌, ◌≡◌, ◌⊎◌, refl, arith, codes, true, some, List, [], ◌∷◌,
}
use holodex.Go.Unicode.{ascii}
use holodex.Go.Strconv.{plus, minus, parse_int}
use holodex.Enrich.Limit.{
  RateLimit, bits, normalize, parse_retry_after, retry_after_seconds, second, min_rate,
  default_rate,
}
use holodex.Enrich.Limit.Bounds.{Normalized, normalize-Normalized, pace}
use holodex.Enrich.Limit.Retry.{IsPause, parse_retry_after-IsPause, retry_after_seconds-Covers}
use holodex.Enrich.Pacer.{
  Bucket, Calls, PacerStep, idle, returned, admitted, provider_paused, limiting, acquiring, waking,
  observing, rate_limited, observe, observe_step, admit, acquire_step, wake_step, ask, wake, step,
  steps, set_limit,
}
use holodex.Enrich.Pacer.Closed.{has_token, observe-Closed}
use holodex.Enrich.Pacer.Holds.{observe-Holds}

-- A slow rate with a burst of 500
abbrev too_much : RateLimit
too_much = record { requests_per_second = bits 1; burst = plus 500 }

clamped_pace : normalize too_much ≡ some (pace min_rate 100, true)
unfolding normalize
clamped_pace = refl

normalize-Normalized_example : Normalized too_much (normalize too_much)
normalize-Normalized_example = normalize-Normalized too_much

parse_retry_after-IsPause_example : IsPause (parse_retry_after ascii (codes "900"))
unfolding parse_int holodex.Go.Unicode.trim_left holodex.Go.Unicode.trim_right ◌=s◌
parse_retry_after-IsPause_example = parse_retry_after-IsPause ascii (codes "900") (omega arith)

-- One second more than an int64 of nanoseconds holds is a pause that has already ended.
parse_overflow : parse_retry_after ascii (codes "9223372037") ≡ minus 9223372036709551616
unfolding parse_retry_after parse_int holodex.Go.Unicode.trim_left holodex.Go.Unicode.trim_right
    ◌=s◌
parse_overflow = refl

retry_after_seconds-Covers_example :
    ((1 ≤ retry_after_seconds 1500000000) × (retry_after_seconds 1500000000 ≤ 300))
    × ((1500000000 ≤ retry_after_seconds 1500000000 * second)
        × ((retry_after_seconds 1500000000 ≡ 1)
            ⊎ ((retry_after_seconds 1500000000 - 1) * second < 1500000000)))
retry_after_seconds-Covers_example = retry_after_seconds-Covers 1500000000 (omega arith)

-- A limiter that counts the tokens it gave, each with a delay of 5
abbrev counting : Bucket ℕ ℕ
counting = record {
  reserve = λ now n. (5, n + 1);
  is_ok = λ res. true;
  delay_from = λ res now. res;
  cancel_at = λ res now n. n - 1;
  set_limit_at = λ now p n. n;
}

abbrev none_yet : Calls counting
none_yet = record {
  pacer = record { lim = 0; cur = pace default_rate 4; paused_until = 0 };
  pc = λ i. idle;
}

-- Call 1 is admitted, and call 2 sleeps in acquire.
abbrev started : List (PacerStep counting)
started =
    limiting 1 80 (pace default_rate 4)
    ∷ acquiring 1 80
    ∷ limiting 2 90 (pace default_rate 4)
    ∷ waking 1 true 95
    ∷ acquiring 2 98
    ∷ []

abbrev under_way : Calls counting
unfolding steps admit acquire_step wake_step set_limit ask wake
under_way = steps counting started none_yet

-- While call 1's 429 pauses the provider until 150, call 3 asks and call 2 wakes.
abbrev traffic : List (PacerStep counting)
traffic = limiting 3 110 (pace default_rate 4) ∷ acquiring 3 115 ∷ waking 2 true 118 ∷ []

abbrev heard : Calls counting
heard = step counting (observing 1 100 (rate_limited (plus 50))) under_way

-- Call 2 is admitted in the pause, and call 3 is refused.
traffic_run :
    ((steps counting traffic heard).pc 2 ≡ returned admitted)
    × ((steps counting traffic heard).pc 3 ≡ returned (provider_paused 35))
unfolding steps admit acquire_step wake_step observe_step set_limit ask wake observe
    holodex.Enrich.Pacer.pause
traffic_run = (refl, refl)

observe-Holds_example :
    (left : ℕ) × ((100 + 50 - 120 ≤ left)
      × (ask counting 120 (steps counting traffic heard).pacer
          ≡ (returned (provider_paused left), (steps counting traffic heard).pacer)))
unfolding steps admit acquire_step wake_step set_limit ask wake
observe-Holds_example = observe-Holds counting 1 100 50 under_way traffic 120 refl (omega arith)

observe-Closed_example : has_token (heard.pc 2) ≡ true
unfolding steps admit acquire_step wake_step observe_step set_limit ask wake
observe-Closed_example =
    observe-Closed counting 1 100 50 under_way traffic 2 refl (tt, (omega arith, (tt, tt))) refl
