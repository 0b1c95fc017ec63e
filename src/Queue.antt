-- ===== src/Queue.antt =====
-- internal/thumbnail/queue.go and internal/montage/queue.go: the two-tier queue of video ids that
-- workers drain. The mutex makes each operation one step; the wakeup channel is with the pool.
pub mod Counts
pub mod Keeps
pub mod Order
pub mod Pool
pub mod Wakeups
mod Tests
use holodex.Prelude.{
  ℕ, zero, suc, ◌+◌, Bool, true, false, not, ◌&&◌, ◌||◌, Option, none, some, List, [], ◌∷◌, ◌++◌,
  ◌==◌, length, if◌then◌else◌,
}

pub record Queue : Type 0 where
  pub high : List ℕ
  pub normal : List ℕ
  pub pending : ℕ → Bool

-- newQueue
abbrev pub new_queue : Queue
new_queue = record { high = []; normal = []; pending = λ i. false }

abbrev pub insert : ℕ → (ℕ → Bool) → ℕ → Bool
insert id p i = (id == i) || p i

abbrev pub delete : ℕ → (ℕ → Bool) → ℕ → Bool
delete id p i = not (id == i) && p i

-- A fresh id at the end of its tier.
abbrev pub added : ℕ → Bool → Queue → Queue
added id true q = record q { pending = insert id q.pending; high = q.high ++ (id ∷ []) }
added id false q = record q { pending = insert id q.pending; normal = q.normal ++ (id ∷ []) }

-- push of the thumbnail queue, and whether it goes on to signal
unfoldable pub push : ℕ → Bool → Queue → Queue × Bool
push id high q = if q.pending id then (q, false) else (added id high q, true)

-- slices.Index and slices.Delete: the list without the first such id, if it is there
unfoldable pub delete_first : ℕ → List ℕ → Option (List ℕ)
delete_first id [] = none
delete_first id (x ∷ xs) =
    let rest = delete_first id xs in
    if x == id then some xs else elim rest [ none ↦ none | some ys ↦ some (x ∷ ys) ]

abbrev pub promoted : ℕ → Queue → Option (List ℕ) → Queue
promoted id q none = q
promoted id q (some rest) = record q { normal = rest; high = q.high ++ (id ∷ []) }

-- push of the montage queue: a duplicate at high priority moves up from the normal tier.
unfoldable pub push_promoting : ℕ → Bool → Queue → Queue × Bool
unfolding delete_first
push_promoting id high q =
    if q.pending id
    then ((if high then promoted id q (delete_first id q.normal) else q), false)
    else (added id high q, true)

abbrev pop_normal : List ℕ → Queue → Option ℕ × Queue
pop_normal [] q = (none, q)
pop_normal (id ∷ rest) q = (some id, record q { normal = rest })

abbrev pop_high : List ℕ → Queue → Option ℕ × Queue
pop_high [] q = pop_normal q.normal q
pop_high (id ∷ rest) q = (some id, record q { high = rest })

-- pop
unfoldable pub pop : Queue → Option ℕ × Queue
pop q = pop_high q.high q

-- done
abbrev pub done : ℕ → Queue → Queue
done id q = record q { pending = delete id q.pending }

-- depth
abbrev pub depth : Queue → ℕ
depth q = length q.high + length q.normal

-- counts
abbrev pub counts : Queue → ℕ × ℕ
counts q = (length q.high, length q.normal)

-- isPending
abbrev pub is_pending : ℕ → Queue → Bool
is_pending id q = q.pending id
