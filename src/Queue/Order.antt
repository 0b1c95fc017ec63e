-- ===== src/Queue/Order.antt =====
-- The order in which ids leave the queue.
use holodex.Prelude.{
  ℕ, ◌≡◌, refl, true, false, List, [], ◌∷◌, ◌++◌, ◌==◌, ==_refl, All, Option, none, some,
  append_assoc,
}
use holodex.Queue.{Queue, pop, push_promoting, delete_first}

-- The queued ids in the order that they leave in.
abbrev pub contents : Queue → List ℕ
contents q = q.high ++ q.normal

abbrev pub head_of : List ℕ → Option ℕ
head_of [] = none
head_of (x ∷ xs) = some x

abbrev pub tail_of : List ℕ → List ℕ
tail_of [] = []
tail_of (x ∷ xs) = xs

-- A pop gives the oldest id of the high tier, or the oldest of the normal tier where the high one is
-- empty, or none where both are, and the others keep their order.
pub pop-contents :
    (q : Queue) → ((pop q).0 ≡ head_of (contents q)) × (contents (pop q).1 ≡ tail_of (contents q))
unfolding pop
pop-contents q = by_tiers q.high q.normal
  where
    by_tiers :
        (hs ns : List ℕ)
        → ((pop (record q { high = hs; normal = ns })).0 ≡ head_of (hs ++ ns))
          × (contents (pop (record q { high = hs; normal = ns })).1 ≡ tail_of (hs ++ ns))
    by_tiers [] [] = (refl, refl)
    by_tiers [] (n ∷ ns) = (refl, refl)
    by_tiers (h ∷ hs) ns = (refl, refl)

-- Without its first occurrence, a list keeps the others in their order.
delete_first-append :
    (id : ℕ) (before after : List ℕ)
    → All (λ x. (x == id) ≡ false) before
    → delete_first id (before ++ (id ∷ after)) ≡ some (before ++ after)
unfolding delete_first
delete_first-append id [] after h = rw (==_refl id) refl
delete_first-append id (x ∷ xs) after (e, h) = rw (e, delete_first-append id xs after h) refl

-- The montage queue's push, at high priority, of a pending id that waits in the normal tier with
-- `before` in front of it and `after` behind: the id goes to the end of the high tier, so that it
-- leaves before all of `before` and `after`, which keep their order, and the push does not signal.
pub push_promoting-contents :
    (id : ℕ) (q : Queue) (before after : List ℕ)
    → q.pending id ≡ true
    → q.normal ≡ before ++ (id ∷ after)
    → All (λ x. (x == id) ≡ false) before
    → ((push_promoting id true q).0.high ≡ q.high ++ (id ∷ []))
      × ((contents (push_promoting id true q).0 ≡ q.high ++ (id ∷ (before ++ after)))
          × ((push_promoting id true q).1 ≡ false))
unfolding push_promoting
push_promoting-contents id q before after e waits first_one =
    rw (e, waits, delete_first-append id before after first_one)
      (refl, (append_assoc q.high (id ∷ []) (before ++ after), refl))
