-- ===== src/Queue/Counts.antt =====
-- How often an id stands in a list.
use holodex.Prelude.{
  ℕ, suc, length, ◌+◌, ◌≡◌, arith, List, [], ◌∷◌, ◌++◌, ◌==◌, Bool, true, false, Option-cases, inl,
  inr, some,
}
use holodex.Queue.{delete_first}

abbrev pub one_if : Bool → ℕ
one_if true = 1
one_if false = 0

abbrev pub count : ℕ → List ℕ → ℕ
count id [] = 0
count id (x ∷ xs) = one_if (x == id) + count id xs

pub count-append : (id : ℕ) (xs ys : List ℕ) → count id (xs ++ ys) ≡ count id xs + count id ys
count-append id [] ys = omega arith
count-append id (x ∷ xs) ys = omega (arith, count-append id xs ys)

-- What is left by `delete_first` lacks one occurrence of the id.
pub count-delete_first :
    (id i : ℕ) (xs rest : List ℕ)
    → delete_first id xs ≡ some rest
    → count i xs ≡ one_if (id == i) + count i rest
unfolding delete_first
count-delete_first id i [] rest h = cc
count-delete_first id i (x ∷ xs) rest h = elim (Option-cases (delete_first id xs)) [
  | inl e ↦ ground arith
  | inr (ys, e) ↦ ground (arith, count-delete_first id i xs ys e)
]

pub length-delete_first :
    (id : ℕ) (xs rest : List ℕ) → delete_first id xs ≡ some rest → length xs ≡ suc (length rest)
unfolding delete_first
length-delete_first id [] rest h = cc
length-delete_first id (x ∷ xs) rest h = elim (Option-cases (delete_first id xs)) [
  | inl e ↦ ground arith
  | inr (ys, e) ↦ ground (arith, length-delete_first id xs ys e)
]
