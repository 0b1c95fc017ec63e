-- ===== src/Enrich/Pacer/Holds.antt =====
-- A pause that a provider asks for holds.
use holodex.Prelude.{
  ℕ, ◌+◌, ◌-◌, ◌≤◌, ◌<◌, ◌≡◌, refl, arith, Bool, List, [], ◌∷◌, ltb, if_both, lt→ltb,
}
use holodex.Go.Strconv.{Int64, plus}
use holodex.Enrich.Limit.{Pace}
use holodex.Enrich.Pacer.{
  Bucket, admitted, unable, cancelled, provider_paused, CallError, rate_limited, other_error,
  same_pace, Pc, idle, asking, sleeping, returned, Pacer, Calls, set_limit, pause, ask, wake, admit,
  observe, acquire_step, wake_step, observe_step, PacerStep, limiting, acquiring, waking, observing,
  step, steps,
}

module _ {Limiter Reservation : Type 0} (bucket : Bucket Limiter Reservation) where
  -- The pause is not shorter than t.
  abbrev Until : ℕ → Pacer bucket → Type 0
  Until t p = t ≤ p.paused_until

  set_limit-Until :
      (t now : ℕ) (rl : Pace) (p : Pacer bucket) → Until t p → Until t (set_limit bucket now rl p)
  unfolding set_limit
  set_limit-Until t now rl p h = if_both (Until t) (same_pace rl p.cur) h h

  pause-Until :
      (t now : ℕ) (d : Int64) (p : Pacer bucket) → Until t p → Until t (pause bucket now d p)
  unfolding pause
  pause-Until t now d p h = ground arith

  abbrev UntilAfter : ℕ → Pc Reservation × Pacer bucket → Type 0
  UntilAfter t o = Until t o.1

  ask-Until : (t now : ℕ) (p : Pacer bucket) → Until t p → UntilAfter t (ask bucket now p)
  unfolding ask
  ask-Until t now p h = if_both (UntilAfter t) (ltb now p.paused_until) h h

  wake-Until :
      (t : ℕ) (res : Reservation) (slept : Bool) (now : ℕ) (p : Pacer bucket)
      → Until t p
      → UntilAfter t (wake bucket res slept now p)
  unfolding wake
  wake-Until t res slept now p h = if_both (UntilAfter t) slept h h

  observe-Until :
      (t now : ℕ) (e : CallError) (p : Pacer bucket)
      → Until t p
      → Until t (observe bucket now e p).1
  unfolding observe
  observe-Until t now (rate_limited d) p h = pause-Until t now d p h
  observe-Until t now (other_error e) p h = h

  admit-Until :
      (t i now : ℕ) (rl : Pace) (at : Pc Reservation) (s : Calls bucket)
      → Until t s.pacer
      → Until t (admit bucket i now rl at s).pacer
  unfolding admit
  admit-Until t i now rl idle s h = set_limit-Until t now rl s.pacer h
  admit-Until t i now rl asking s h = h
  admit-Until t i now rl (sleeping res) s h = h
  admit-Until t i now rl (returned admitted) s h = h
  admit-Until t i now rl (returned unable) s h = set_limit-Until t now rl s.pacer h
  admit-Until t i now rl (returned cancelled) s h = set_limit-Until t now rl s.pacer h
  admit-Until t i now rl (returned (provider_paused left)) s h = set_limit-Until t now rl s.pacer h

  acquire_step-Until :
      (t i now : ℕ) (at : Pc Reservation) (s : Calls bucket)
      → Until t s.pacer
      → Until t (acquire_step bucket i now at s).pacer
  unfolding acquire_step
  acquire_step-Until t i now asking s h = ask-Until t now s.pacer h
  acquire_step-Until t i now idle s h = h
  acquire_step-Until t i now (sleeping res) s h = h
  acquire_step-Until t i now (returned a) s h = h

  wake_step-Until :
      (t i : ℕ) (slept : Bool) (now : ℕ) (at : Pc Reservation) (s : Calls bucket)
      → Until t s.pacer
      → Until t (wake_step bucket i slept now at s).pacer
  unfolding wake_step
  wake_step-Until t i slept now (sleeping res) s h = wake-Until t res slept now s.pacer h
  wake_step-Until t i slept now idle s h = h
  wake_step-Until t i slept now asking s h = h
  wake_step-Until t i slept now (returned a) s h = h

  observe_step-Until :
      (t i now : ℕ) (e : CallError) (at : Pc Reservation) (s : Calls bucket)
      → Until t s.pacer
      → Until t (observe_step bucket i now e at s).pacer
  unfolding observe_step
  observe_step-Until t i now e (returned admitted) s h = observe-Until t now e s.pacer h
  observe_step-Until t i now e idle s h = h
  observe_step-Until t i now e asking s h = h
  observe_step-Until t i now e (sleeping res) s h = h
  observe_step-Until t i now e (returned unable) s h = h
  observe_step-Until t i now e (returned cancelled) s h = h
  observe_step-Until t i now e (returned (provider_paused left)) s h = h

  pub step-Until :
      (t : ℕ) (x : PacerStep bucket) (s : Calls bucket)
      → Until t s.pacer
      → Until t (step bucket x s).pacer
  step-Until t (limiting i now rl) s h = admit-Until t i now rl (s.pc i) s h
  step-Until t (acquiring i now) s h = acquire_step-Until t i now (s.pc i) s h
  step-Until t (waking i slept now) s h = wake_step-Until t i slept now (s.pc i) s h
  step-Until t (observing i now e) s h = observe_step-Until t i now e (s.pc i) s h

  steps-Until :
      (t : ℕ) (xs : List (PacerStep bucket)) (s : Calls bucket)
      → Until t s.pacer
      → Until t (steps bucket xs s).pacer
  unfolding steps
  steps-Until t [] s h = h
  steps-Until t (x ∷ xs) s h = steps-Until t xs (step bucket x s) (step-Until t x s h)

  pause-add : (now d : ℕ) (p : Pacer bucket) → Until (now + d) (pause bucket now (plus d) p)
  unfolding pause
  pause-add now d p = ground arith

  pub observe_step-add :
      (i now d : ℕ) (s : Calls bucket) (at : Pc Reservation)
      → at ≡ returned admitted
      → Until (now + d) (observe_step bucket i now (rate_limited (plus d)) at s).pacer
  unfolding observe_step observe
  observe_step-add i now d s at e = rw (e) (pause-add now d s.pacer)

  -- While the pause is not over, acquire refuses.
  pub ask-refuses :
      (t now : ℕ) (p : Pacer bucket)
      → now < t
      → Until t p
      → ask bucket now p ≡ (returned (provider_paused (p.paused_until - now)), p)
  unfolding ask
  ask-refuses t now p lt h = rw (lt→ltb now p.paused_until (omega (arith, lt, h))) refl

  -- When a call i of the provider is answered by a 429 with a Retry-After of d, which is not negative, at
  -- a time `now`, then acquire refuses every call that takes the lock before now + d, whatever steps of
  -- any calls come in between: it returns at once that the provider is paused, for at least the time
  -- that is left, and the pacer, with its limiter's tokens, stays as it is. Calls that are past the lock,
  -- in the sleep of acquire, are not asked again.
  pub observe-Holds :
      (i now d : ℕ) (s : Calls bucket) (xs : List (PacerStep bucket)) (at : ℕ)
      → s.pc i ≡ returned admitted
      → at < now + d
      → let p = (steps bucket xs (step bucket (observing i now (rate_limited (plus d))) s)).pacer in
        (left : ℕ) × ((now + d - at ≤ left)
          × (ask bucket at p ≡ (returned (provider_paused left), p)))
  observe-Holds i now d s xs at e lt =
      (p.paused_until - at, (omega (arith, kept), ask-refuses (now + d) at p lt kept))
    where
      heard : Calls bucket
      heard = step bucket (observing i now (rate_limited (plus d))) s

      p : Pacer bucket
      p = (steps bucket xs heard).pacer

      kept : Until (now + d) p
      kept = steps-Until (now + d) xs heard (observe_step-add i now d s (s.pc i) e)
