-- ===== src/Queue/Tests.antt =====
-- A pool of one worker, and what its queue does.
use holodex.Prelude.{◌≡◌, refl, true, false, [], ◌∷◌, ◌++◌}
use holodex.Queue.{Queue, pop, push, push_promoting, new_queue, insert}
use holodex.Queue.Keeps.{thumbnail_push}
use holodex.Queue.Pool.{
  Pool, start, Reach, started, stepped, pushed, signalled, popped, after_push, after_pop,
}
use holodex.Queue.Wakeups.{Exclusive, Awake, Reach-Exclusive, Reach-Awake}
use holodex.Queue.Order.{contents, head_of, tail_of, pop-contents, push_promoting-contents}

abbrev pool1 : Pool
unfolding push
pool1 = after_push (push 7 true (start 1).queue) (start 1)

abbrev pool2 : Pool
pool2 = record pool1 { owed = 0; ready = true }

abbrev pool3 : Pool
unfolding pop
pool3 = after_pop (pop pool2.queue) 0 pool2

reach3 : Reach thumbnail_push 1 pool3
unfolding pop push
reach3 =
    stepped _ _
      (stepped _ _ (stepped _ _ started (pushed (start 1) 7 true)) (signalled pool1 0 refl))
      (popped pool2 0 refl)

Reach-Exclusive_example : Exclusive pool3
Reach-Exclusive_example = Reach-Exclusive thumbnail_push 1 pool3 reach3

Reach-Awake_example : Awake pool3
Reach-Awake_example = Reach-Awake thumbnail_push 1 pool3 reach3

abbrev two_tiers : Queue
two_tiers = record {
  high = 1 ∷ [];
  normal = 2 ∷ 3 ∷ [];
  pending = insert 1 (insert 2 (insert 3 new_queue.pending));
}

pop-contents_example :
    ((pop two_tiers).0 ≡ head_of (contents two_tiers))
    × (contents (pop two_tiers).1 ≡ tail_of (contents two_tiers))
pop-contents_example = pop-contents two_tiers

push_promoting-contents_example :
    ((push_promoting 3 true two_tiers).0.high ≡ (1 ∷ []) ++ (3 ∷ []))
    × ((contents (push_promoting 3 true two_tiers).0 ≡ (1 ∷ []) ++ (3 ∷ ((2 ∷ []) ++ [])))
        × ((push_promoting 3 true two_tiers).1 ≡ false))
push_promoting-contents_example =
    push_promoting-contents 3 two_tiers (2 ∷ []) [] refl refl (refl, tt)
