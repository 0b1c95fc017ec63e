-- ===== src/Enrich/Pacer.antt =====
-- pacer and pacedClient of internal/enrich/pacer.go. The token bucket of golang.org/x/time/rate is a
-- parameter. Times are nanoseconds; a pause's duration may be negative.
pub mod Closed
pub mod Holds
use holodex.Prelude.{
  ℕ, ◌+◌, ◌-◌, Bool, true, false, ◌&&◌, Option, none, some, List, [], ◌∷◌, ◌==◌, ltb, if◌then◌else◌,
}
use holodex.Go.Strconv.{Int64, plus, minus}
use holodex.Enrich.Limit.{Pace}

-- What the pacer asks of a rate.Limiter: a reservation of one token, whether it holds and the delay
-- until it may be used; giving a reservation back; and a new limit.
pub record Bucket (Limiter Reservation : Type 0) : Type 0 where
  pub reserve : ℕ → Limiter → Reservation × Limiter
  pub is_ok : Reservation → Bool
  pub delay_from : Reservation → ℕ → ℕ
  pub cancel_at : Reservation → ℕ → Limiter → Limiter
  pub set_limit_at : ℕ → Pace → Limiter → Limiter

-- What acquire returns: a token, ErrProviderPaused, an error of the limiter, or one of the context.
pub data Acquired : Type 0 where
  admitted unable cancelled : Acquired
  provider_paused : ℕ → Acquired

-- What the inner call returns: a 429 with its Retry-After, or another error or none.
pub data CallError : Type 0 where
  rate_limited : Int64 → CallError
  other_error : ℕ → CallError

-- What observe returns
pub data Observed : Type 0 where
  paused_for : Int64 → Observed
  passed : ℕ → Observed

abbrev pub same_pace : Pace → Pace → Bool
same_pace a b = a.rate == b.rate && a.burst == b.burst

-- p.now().Add(d), for a clock that is past the durations
abbrev pub add : ℕ → Int64 → ℕ
add now (plus d) = now + d
add now (minus d) = now - d

-- Where a call of Resolve or Enrich is: not begun, before acquire, in the sleep of acquire with its
-- reservation, or behind acquire. With admitted, it is inside the provider's own call.
pub data Pc (Reservation : Type 0) : Type 0 where
  idle asking : Pc Reservation
  sleeping : Reservation → Pc Reservation
  returned : Acquired → Pc Reservation

module _ {Limiter Reservation : Type 0} (bucket : Bucket Limiter Reservation) where
  pub record Pacer : Type 0 where
    pub lim : Limiter
    pub cur : Pace
    pub paused_until : ℕ

  -- setLimit
  unfoldable pub set_limit : ℕ → Pace → Pacer → Pacer
  set_limit now rl p =
      if same_pace rl p.cur
      then p
      else record p { lim = bucket.set_limit_at now rl p.lim; cur = rl }

  -- pause
  unfoldable pub pause : ℕ → Int64 → Pacer → Pacer
  pause now d p =
      if ltb p.paused_until (add now d) then record p { paused_until = add now d } else p

  -- A reservation that was made: without a delay it admits, else the call goes to sleep.
  abbrev pub reserved : ℕ → Reservation → Pc Reservation
  reserved now res =
      if bucket.is_ok res
      then (if bucket.delay_from res now == 0 then returned admitted else sleeping res)
      else returned unable

  -- acquire up to its sleep: the lock is held until the reservation is made, and not in the sleep.
  unfoldable pub ask : ℕ → Pacer → Pc Reservation × Pacer
  ask now p =
      if ltb now p.paused_until
      then (returned (provider_paused (p.paused_until - now)), p)
      else let r = bucket.reserve now p.lim in (reserved now r.0, record p { lim = r.1 })

  -- acquire from the end of its sleep, which returns at some time with the context's error or without:
  -- the pause is not looked at again.
  unfoldable pub wake : Reservation → Bool → ℕ → Pacer → Pc Reservation × Pacer
  wake res slept now p =
      if slept
      then (returned admitted, p)
      else (returned cancelled, record p { lim = bucket.cancel_at res now p.lim })

  -- observe
  unfoldable pub observe : ℕ → CallError → Pacer → Observed × Pacer
  observe now (rate_limited d) p = (paused_for d, pause now d p)
  observe now (other_error e) p = (passed e, p)

  -- The provider's pacer, and the calls that share it
  pub record Calls : Type 0 where
    pub pacer : Pacer
    pub pc : ℕ → Pc Reservation

  abbrev pub put : ℕ → Pc Reservation × Pacer → Calls → Calls
  put i (at, p) s = record { pacer = p; pc = λ j. if i == j then at else s.pc j }

  -- The steps of the calls, each in one hold of the lock, in any order and at any times: admit sets the
  -- limit, acquire asks for a token, the sleep ends, and the provider's answer is observed.
  pub data PacerStep : Type 0 where
    limiting : (i now : ℕ) (rl : Pace) → PacerStep
    acquiring : (i now : ℕ) → PacerStep
    waking : (i : ℕ) (slept : Bool) (now : ℕ) → PacerStep
    observing : (i now : ℕ) (e : CallError) → PacerStep

  -- admit, of a call that is not under way, up to its call of acquire
  unfoldable pub admit : ℕ → ℕ → Pace → Pc Reservation → Calls → Calls
  admit i now rl asking s = s
  admit i now rl (sleeping res) s = s
  admit i now rl (returned admitted) s = s
  admit i now rl idle s = put i (asking, set_limit now rl s.pacer) s
  admit i now rl (returned unable) s = put i (asking, set_limit now rl s.pacer) s
  admit i now rl (returned cancelled) s = put i (asking, set_limit now rl s.pacer) s
  admit i now rl (returned (provider_paused left)) s = put i (asking, set_limit now rl s.pacer) s

  -- A call makes a step where it stands before that step; else nothing happens.
  unfoldable pub acquire_step : ℕ → ℕ → Pc Reservation → Calls → Calls
  acquire_step i now asking s = put i (ask now s.pacer) s
  acquire_step i now idle s = s
  acquire_step i now (sleeping res) s = s
  acquire_step i now (returned a) s = s

  unfoldable pub wake_step : ℕ → Bool → ℕ → Pc Reservation → Calls → Calls
  wake_step i slept now (sleeping res) s = put i (wake res slept now s.pacer) s
  wake_step i slept now idle s = s
  wake_step i slept now asking s = s
  wake_step i slept now (returned a) s = s

  unfoldable pub observe_step : ℕ → ℕ → CallError → Pc Reservation → Calls → Calls
  observe_step i now e (returned admitted) s = put i (idle, (observe now e s.pacer).1) s
  observe_step i now e idle s = s
  observe_step i now e asking s = s
  observe_step i now e (sleeping res) s = s
  observe_step i now e (returned unable) s = s
  observe_step i now e (returned cancelled) s = s
  observe_step i now e (returned (provider_paused left)) s = s

  abbrev pub step : PacerStep → Calls → Calls
  step (limiting i now rl) s = admit i now rl (s.pc i) s
  step (acquiring i now) s = acquire_step i now (s.pc i) s
  step (waking i slept now) s = wake_step i slept now (s.pc i) s
  step (observing i now e) s = observe_step i now e (s.pc i) s

  unfoldable pub steps : List PacerStep → Calls → Calls
  steps [] s = s
  steps (x ∷ xs) s = steps xs (step x s)
