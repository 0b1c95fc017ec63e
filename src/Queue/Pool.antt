-- ===== src/Queue/Pool.antt =====
-- `worker` of internal/thumbnail/worker.go and internal/montage/worker.go: the steps of the workers
-- and of the callers that push, in any order. A worker that shuts down takes no further step. A
-- montage worker that waits for the still queue is about to pop: it counts as polling.
use holodex.Prelude.{
  ℕ, suc, ◌+◌, ◌≡◌, Bool, true, false, List, [], ◌∷◌, ◌++◌, Option, none, some, ltb,
}
use holodex.Queue.{Queue, pop, done, depth, new_queue}
use holodex.Queue.Counts.{one_if}
use holodex.Queue.Keeps.{Pushes}

-- `owed` signals are to come, of callers that have pushed and of workers that found more in the queue:
-- neither holds the lock when it signals. `polling` workers are about to pop and `waiting` ones are
-- blocked on the channel; `checking` and `working` hold an id that they popped, before and after the
-- look at the queue's depth. A worker may go on to its id before the signal that it owes, which the
-- source has first: there are more orders here than there.
pub record Pool : Type 0 where
  pub queue : Queue
  pub ready : Bool
  pub owed : ℕ
  pub polling : ℕ
  pub waiting : ℕ
  pub checking : List ℕ
  pub working : List ℕ

abbrev pub start : ℕ → Pool
start workers = record {
  queue = new_queue;
  ready = false;
  owed = 0;
  polling = workers;
  waiting = 0;
  checking = [];
  working = [];
}

abbrev pub after_push : Queue × Bool → Pool → Pool
after_push (q, s) p = record p { queue = q; owed = one_if s + p.owed }

-- The worker's pop: it holds an id now, or it blocks.
abbrev pub after_pop : Option ℕ × Queue → ℕ → Pool → Pool
after_pop (none, q) n p = record p { queue = q; polling = n; waiting = suc p.waiting }
after_pop (some id, q) n p = record p { queue = q; polling = n; checking = id ∷ p.checking }

module _ (push : Pushes) where
  pub data Step : Pool → Pool → Type 0 where
    pushed : (p : Pool) (id : ℕ) (high : Bool) → Step p (after_push (push.run id high p.queue) p)
    signalled : (p : Pool) (n : ℕ) → p.owed ≡ suc n → Step p (record p { owed = n; ready = true })
    popped : (p : Pool) (n : ℕ) → p.polling ≡ suc n → Step p (after_pop (pop p.queue) n p)
    woken :
        (p : Pool) (n : ℕ)
        → p.waiting ≡ suc n
        → p.ready ≡ true
        → Step p (record p { waiting = n; ready = false; polling = suc p.polling })
    checked :
        (p : Pool) (before : List ℕ) (id : ℕ) (after : List ℕ)
        → p.checking ≡ before ++ (id ∷ after)
        → Step p (record p {
          checking = before ++ after;
          working = id ∷ p.working;
          owed = one_if (ltb 0 (depth p.queue)) + p.owed;
        })
    finished :
        (p : Pool) (before : List ℕ) (id : ℕ) (after : List ℕ)
        → p.working ≡ before ++ (id ∷ after)
        → Step p (record p {
          working = before ++ after;
          queue = done id p.queue;
          polling = suc p.polling;
        })

  pub data Reach (workers : ℕ) : Pool → Type 0 where
    started : Reach workers (start workers)
    stepped : (p p' : Pool) → Reach workers p → Step p p' → Reach workers p'
