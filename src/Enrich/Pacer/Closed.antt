-- ===== src/Enrich/Pacer/Closed.antt =====
-- A pause keeps the bucket closed for the calls that have no token when it begins.
use holodex.Prelude.{
  ℕ, ◌+◌, ◌-◌, ◌≤◌, ◌<◌, ◌≡◌, refl, sym, subst, arith, Bool, true, false, List, [], ◌∷◌, ◌==◌, All,
  if◌then◌else◌,
}
use holodex.Go.Strconv.{plus}
use holodex.Enrich.Limit.{Pace}
use holodex.Enrich.Pacer.{
  Bucket, admitted, unable, cancelled, provider_paused, CallError, rate_limited, Pc, idle, asking,
  sleeping, returned, Pacer, Calls, put, set_limit, ask, wake, admit, observe, acquire_step,
  wake_step, observe_step, PacerStep, limiting, acquiring, waking, observing, step, steps,
}
use holodex.Enrich.Pacer.Holds.{step-Until, observe_step-add, ask-refuses}

-- The call has a token, or a reservation of one that it sleeps for.
abbrev pub has_token : {Reservation : Type 0} → Pc Reservation → Bool
has_token idle = false
has_token asking = false
has_token (sleeping res) = true
has_token (returned admitted) = true
has_token (returned unable) = false
has_token (returned cancelled) = false
has_token (returned (provider_paused left)) = false

module _ {Limiter Reservation : Type 0} (bucket : Bucket Limiter Reservation) where
  -- If the step takes the lock in acquire, it does so before t.
  abbrev pub Asks : ℕ → PacerStep bucket → Type 0
  Asks t (limiting i now rl) = Unit
  Asks t (acquiring i now) = now < t
  Asks t (waking i slept now) = Unit
  Asks t (observing i now e) = Unit

  put-token :
      (i j : ℕ) (o : Pc Reservation × Pacer bucket) (s : Calls bucket)
      → (has_token o.0 ≡ true → has_token (s.pc i) ≡ true)
      → has_token ((put bucket i o s).pc j) ≡ true
      → has_token (s.pc j) ≡ true
  put-token i j (at, p) s h = by_call (i == j) refl
    where
      by_call :
          (b : Bool)
          → (i == j) ≡ b
          → has_token (if b then at else s.pc j) ≡ true
          → has_token (s.pc j) ≡ true
      by_call true e k = subst (λ (c : ℕ). has_token (s.pc c) ≡ true) (ground arith) (h k)
      by_call false e k = k

  admit-token :
      (i j now : ℕ) (rl : Pace) (at : Pc Reservation) (s : Calls bucket)
      → has_token ((admit bucket i now rl at s).pc j) ≡ true
      → has_token (s.pc j) ≡ true
  unfolding admit
  admit-token i j now rl idle s =
      put-token i j (asking, set_limit bucket now rl s.pacer) s (λ e. absurd (cc))
  admit-token i j now rl asking s = λ k. k
  admit-token i j now rl (sleeping res) s = λ k. k
  admit-token i j now rl (returned admitted) s = λ k. k
  admit-token i j now rl (returned unable) s =
      put-token i j (asking, set_limit bucket now rl s.pacer) s (λ e. absurd (cc))
  admit-token i j now rl (returned cancelled) s =
      put-token i j (asking, set_limit bucket now rl s.pacer) s (λ e. absurd (cc))
  admit-token i j now rl (returned (provider_paused left)) s =
      put-token i j (asking, set_limit bucket now rl s.pacer) s (λ e. absurd (cc))

  acquire_step-token :
      (t i j now : ℕ) (at : Pc Reservation) (s : Calls bucket)
      → now < t
      → t ≤ s.pacer.paused_until
      → has_token ((acquire_step bucket i now at s).pc j) ≡ true
      → has_token (s.pc j) ≡ true
  unfolding acquire_step
  acquire_step-token t i j now asking s lt h =
      put-token i j (ask bucket now s.pacer) s
        (λ e. absurd (no_token (ask bucket now s.pacer) (ask-refuses bucket t now s.pacer lt h) e))
    where
      no_token :
          (o : Pc Reservation × Pacer bucket)
          → o ≡ (returned (provider_paused (s.pacer.paused_until - now)), s.pacer)
          → has_token o.0 ≡ true
          → ⊥
      no_token o e k =
          let same = subst (λ (x : Pc Reservation × Pacer bucket). has_token x.0 ≡ true) e k in cc
  acquire_step-token t i j now idle s lt h = λ k. k
  acquire_step-token t i j now (sleeping res) s lt h = λ k. k
  acquire_step-token t i j now (returned a) s lt h = λ k. k

  wake_step-token :
      (i j : ℕ) (slept : Bool) (now : ℕ) (at : Pc Reservation) (s : Calls bucket)
      → s.pc i ≡ at
      → has_token ((wake_step bucket i slept now at s).pc j) ≡ true
      → has_token (s.pc j) ≡ true
  unfolding wake_step
  wake_step-token i j slept now (sleeping res) s e =
      put-token i j (wake bucket res slept now s.pacer) s
        (λ k. subst (λ (x : Pc Reservation). has_token x ≡ true) (sym e) refl)
  wake_step-token i j slept now idle s e = λ k. k
  wake_step-token i j slept now asking s e = λ k. k
  wake_step-token i j slept now (returned a) s e = λ k. k

  observe_step-token :
      (i j now : ℕ) (x : CallError) (at : Pc Reservation) (s : Calls bucket)
      → has_token ((observe_step bucket i now x at s).pc j) ≡ true
      → has_token (s.pc j) ≡ true
  unfolding observe_step
  observe_step-token i j now x (returned admitted) s =
      put-token i j (idle, (observe bucket now x s.pacer).1) s (λ e. absurd (cc))
  observe_step-token i j now x idle s = λ k. k
  observe_step-token i j now x asking s = λ k. k
  observe_step-token i j now x (sleeping res) s = λ k. k
  observe_step-token i j now x (returned unable) s = λ k. k
  observe_step-token i j now x (returned cancelled) s = λ k. k
  observe_step-token i j now x (returned (provider_paused left)) s = λ k. k

  step-token :
      (t j : ℕ) (x : PacerStep bucket) (s : Calls bucket)
      → t ≤ s.pacer.paused_until
      → Asks t x
      → has_token ((step bucket x s).pc j) ≡ true
      → has_token (s.pc j) ≡ true
  step-token t j (limiting i now rl) s h a = admit-token i j now rl (s.pc i) s
  step-token t j (acquiring i now) s h a = acquire_step-token t i j now (s.pc i) s a h
  step-token t j (waking i slept now) s h a = wake_step-token i j slept now (s.pc i) s refl
  step-token t j (observing i now e) s h a = observe_step-token i j now e (s.pc i) s

  steps-token :
      (t j : ℕ) (xs : List (PacerStep bucket)) (s : Calls bucket)
      → t ≤ s.pacer.paused_until
      → All (Asks t) xs
      → has_token ((steps bucket xs s).pc j) ≡ true
      → has_token (s.pc j) ≡ true
  unfolding steps
  steps-token t j [] s h a k = k
  steps-token t j (x ∷ xs) s h (a, as_well) k =
      step-token t j x s h a
        (steps-token t j xs (step bucket x s) (step-Until bucket t x s h) as_well k)

  -- When a call i of the provider is answered by a 429 with a Retry-After of d, which is not negative, at
  -- a time `now`, and any steps of any calls follow in which the lock of acquire is taken before now + d
  -- only: a call that then has a token, or sleeps for one, had it or slept for it already when the 429
  -- was observed. So a call that had none, and was not in the sleep of acquire, gets none in the pause.
  pub observe-Closed :
      (i now d : ℕ) (s : Calls bucket) (xs : List (PacerStep bucket)) (j : ℕ)
      → s.pc i ≡ returned admitted
      → All (Asks (now + d)) xs
      → has_token ((steps bucket xs (step bucket (observing i now (rate_limited (plus d))) s)).pc j)
        ≡ true
      → has_token ((step bucket (observing i now (rate_limited (plus d))) s).pc j) ≡ true
  observe-Closed i now d s xs j e a k =
      steps-token (now + d) j xs (step bucket (observing i now (rate_limited (plus d))) s)
        (observe_step-add bucket i now d s (s.pc i) e) a k
