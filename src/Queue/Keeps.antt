-- ===== src/Queue/Keeps.antt =====
-- What the two kinds of push have in common, which is what the workers rely on.
use holodex.Prelude.{
  ℕ, ◌+◌, ◌≡◌, refl, arith, Bool, true, false, List, [], ◌∷◌, Option, none, some, length-append,
  inl, inr, Bool-cases, if◌then◌else◌,
}
use holodex.Queue.{Queue, push, push_promoting, added, promoted, delete_first, depth}
use holodex.Queue.Counts.{count, one_if, count-append, count-delete_first, length-delete_first}

-- How often the id stands in the queue.
abbrev pub queued : ℕ → Queue → ℕ
queued i q = count i q.high + count i q.normal

-- The effect on the queue of an operation that may add one id.
pub record IsPush (id : ℕ) (q : Queue) (r : Queue × Bool) : Type 0 where
  -- exactly an id that was not pending is new in the queue, and pending
  pub counted : (i : ℕ) → queued i r.0 + one_if (q.pending i) ≡ queued i q + one_if (r.0.pending i)
  pub is_pending : r.0.pending id ≡ true
  -- without a signal, the queue is not longer
  pub silent : r.1 ≡ false → depth r.0 ≡ depth q

added-IsPush :
    (id : ℕ) (high : Bool) (q : Queue) → q.pending id ≡ false → IsPush id q (added id high q, true)
added-IsPush id true q h = record {
  counted = λ i. ground (arith, count-append i q.high (id ∷ []));
  is_pending = ground arith;
  silent = λ e. cc;
}
added-IsPush id false q h = record {
  counted = λ i. ground (arith, count-append i q.normal (id ∷ []));
  is_pending = ground arith;
  silent = λ e. cc;
}

pub push-IsPush : (id : ℕ) (high : Bool) (q : Queue) → IsPush id q (push id high q)
unfolding push
push-IsPush id high q = elim (Bool-cases (q.pending id)) [
  | inl e ↦ rw e (unchanged e)
  | inr e ↦ rw e (added-IsPush id high q e)
]
  where
    unchanged : q.pending id ≡ true → IsPush id q (q, false)
    unchanged e = record { counted = λ i. refl; is_pending = e; silent = λ s. refl }

promoted-IsPush :
    (id : ℕ) (q : Queue)
    → q.pending id ≡ true
    → IsPush id q (promoted id q (delete_first id q.normal), false)
promoted-IsPush id q e = by_place (delete_first id q.normal) refl
  where
    by_place :
        (o : Option (List ℕ)) → delete_first id q.normal ≡ o → IsPush id q (promoted id q o, false)
    by_place none h = record { counted = λ i. refl; is_pending = e; silent = λ s. refl }
    by_place (some rest) h = record {
      counted = λ i.
          omega (arith, count-append i q.high (id ∷ []), count-delete_first id i q.normal rest h);
      is_pending = e;
      silent = λ s.
          omega (arith, length-append q.high (id ∷ []), length-delete_first id q.normal rest h);
    }

pub push_promoting-IsPush :
    (id : ℕ) (high : Bool) (q : Queue) → IsPush id q (push_promoting id high q)
unfolding push_promoting
push_promoting-IsPush id high q = elim (Bool-cases (q.pending id)) [
  | inl e ↦ rw e (by_tier high e)
  | inr e ↦ rw e (added-IsPush id high q e)
]
  where
    by_tier :
        (b : Bool)
        → q.pending id ≡ true
        → IsPush id q ((if b then promoted id q (delete_first id q.normal) else q), false)
    by_tier true e = promoted-IsPush id q e
    by_tier false e = record { counted = λ i. refl; is_pending = e; silent = λ s. refl }

-- A push that the workers can rely on.
pub record Pushes : Type 0 where
  pub run : ℕ → Bool → Queue → Queue × Bool
  pub run-IsPush : (id : ℕ) (high : Bool) (q : Queue) → IsPush id q (run id high q)

-- The thumbnail queue's push, and the montage queue's.
abbrev pub thumbnail_push : Pushes
thumbnail_push = record { run = push; run-IsPush = push-IsPush }

abbrev pub montage_push : Pushes
montage_push = record { run = push_promoting; run-IsPush = push_promoting-IsPush }
