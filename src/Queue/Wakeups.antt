-- ===== src/Queue/Wakeups.antt =====
-- Invariants of the pool: an id is in one place, and no wakeup is lost.
use holodex.Prelude.{
  ℕ, ◌+◌, ◌≡◌, ◌<◌, refl, arith, List, [], ◌∷◌, Option, none, some, ◌==◌, length, inl, inr,
  Bool-cases, ap, subst, sym,
}
use holodex.Queue.{Queue, pop, depth}
use holodex.Queue.Counts.{count, one_if, count-append}
use holodex.Queue.Keeps.{Pushes, queued}
use holodex.Queue.Pool.{
  Pool, Step, Reach, pushed, signalled, popped, woken, checked, finished, started, stepped,
  after_pop,
}

-- What a pop does to the queue.
abbrev pub Popped : Queue → Option ℕ × Queue → Type 0
Popped q (none, q') = (q' ≡ q) × (depth q ≡ 0)
Popped q (some id, q') =
    (i : ℕ) → (queued i q ≡ one_if (id == i) + queued i q') × (q'.pending i ≡ q.pending i)

pub pop-Popped : (q : Queue) → Popped q (pop q)
unfolding pop
pop-Popped q = by_tiers q.high q.normal
  where
    by_tiers :
        (hs ns : List ℕ)
        → Popped (record q { high = hs; normal = ns }) (pop (record q { high = hs; normal = ns }))
    by_tiers [] [] = (refl, omega arith)
    by_tiers [] (n ∷ ns) = λ i. (omega arith, refl)
    by_tiers (h ∷ hs) ns = λ i. (omega arith, refl)

-- An id is queued once or held by one worker where it is pending, and neither where it is not.
abbrev pub Exclusive : Pool → Type 0
Exclusive p =
    (i : ℕ) → queued i p.queue + count i p.checking + count i p.working ≡ one_if (p.queue.pending i)

-- While an id is queued, a signal is in the channel or owed, or a worker is about to look.
abbrev pub Awake : Pool → Type 0
Awake p = 0 < depth p.queue → 0 < one_if p.ready + p.owed + p.polling + length p.checking

module _ (push : Pushes) where
  Exclusive-Popped :
      (p : Pool) (n : ℕ) (r : Option ℕ × Queue)
      → Popped p.queue r
      → Exclusive p
      → Exclusive (after_pop r n p)
  Exclusive-Popped p n (none, q) (e, d) x i =
      subst (λ (z : Queue). Exclusive (record p { queue = z })) (sym e) x i
  Exclusive-Popped p n (some id, q) h x i = ground (arith, x i, (h i).0, (h i).1)

  Exclusive-step : (p p' : Pool) → Step push p p' → Exclusive p → Exclusive p'
  Exclusive-step _ _ (pushed p id high) x i =
      ground (arith, x i, (push.run-IsPush id high p.queue).counted i)
  Exclusive-step _ _ (signalled p n e) x i = x i
  Exclusive-step _ _ (popped p n e) x i =
      Exclusive-Popped p n (pop p.queue) (pop-Popped p.queue) x i
  Exclusive-step _ _ (woken p n e r) x i = x i
  Exclusive-step _ _ (checked p before id after e) x i =
      omega (
        arith,
        x i,
        ap (count i) e,
        count-append i before (id ∷ after),
        count-append i before after,
      )
  Exclusive-step _ _ (finished p before id after e) x i =
      ground (
        arith,
        x i,
        ap (count i) e,
        count-append i before (id ∷ after),
        count-append i before after,
      )

  Awake-Popped :
      (p : Pool) (n : ℕ) (r : Option ℕ × Queue) → Popped p.queue r → Awake (after_pop r n p)
  Awake-Popped p n (none, q) (e, d) h = omega (arith, h, d, ap depth e)
  Awake-Popped p n (some id, q) k h = omega arith

  Awake-step : (p p' : Pool) → Step push p p' → Awake p → Awake p'
  Awake-step _ _ (pushed p id high) x h = elim (Bool-cases (push.run id high p.queue).1) [
    | inl e ↦ ground arith
    | inr e ↦ omega (arith, x, h, (push.run-IsPush id high p.queue).silent e)
  ]
  Awake-step _ _ (signalled p n e) x h = omega arith
  Awake-step _ _ (popped p n e) x h = Awake-Popped p n (pop p.queue) (pop-Popped p.queue) h
  Awake-step _ _ (woken p n e r) x h = omega arith
  Awake-step _ _ (checked p before id after e) x h = ground arith
  Awake-step _ _ (finished p before id after e) x h = omega arith

  Reach-invariants : (workers : ℕ) (p : Pool) → Reach push workers p → Exclusive p × Awake p
  Reach-invariants workers _ started = (λ i. omega arith, λ h. omega (arith, h))
  Reach-invariants workers _ (stepped p p' r s) =
      let h = Reach-invariants workers p r in (Exclusive-step p p' s h.0, Awake-step p p' s h.1)

  -- In every state that any interleaving of pushes and workers reaches, an id is in one place at most
  -- (once in a tier of the queue, or with one worker), and it is in one exactly where it is pending.
  pub Reach-Exclusive : (workers : ℕ) (p : Pool) → Reach push workers p → Exclusive p
  Reach-Exclusive workers p r = (Reach-invariants workers p r).0

  -- In every state that any interleaving reaches, while the queue holds an id, a signal stands in the
  -- channel or is owed by a caller or a worker, or some worker is about to pop or to look at the depth: the
  -- workers are never all blocked beside a queue that is not empty.
  pub Reach-Awake : (workers : ℕ) (p : Pool) → Reach push workers p → Awake p
  Reach-Awake workers p r = (Reach-invariants workers p r).1
