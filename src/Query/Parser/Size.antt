-- ===== src/Query/Parser/Size.antt =====
-- How many conditions and words a tree has, how deep it is, and what `join` does to both.
use holodex.Prelude.{ℕ, suc, ◌+◌, ◌≤◌, max, ◌≡◌, refl, Bool, true, false, arith}
use holodex.Query.Tree.{Node, Nodes, any, all, not, cond, word, nil, cons}
use holodex.Query.Parser.Join.{append, splice, flatten, collapse, join}

unfoldable mutual
  pub leaves : Node → ℕ
  leaves (any ns) = leaves_of ns
  leaves (all ns) = leaves_of ns
  leaves (not n) = leaves n
  leaves (cond c) = 1
  leaves (word w) = 1

  pub leaves_of : Nodes → ℕ
  leaves_of nil = 0
  leaves_of (cons n ns) = leaves n + leaves_of ns

unfoldable mutual
  pub height : Node → ℕ
  height (any ns) = suc (height_of ns)
  height (all ns) = suc (height_of ns)
  height (not n) = suc (height n)
  height (cond c) = 1
  height (word w) = 1

  pub height_of : Nodes → ℕ
  height_of nil = 0
  height_of (cons n ns) = max (height n) (height_of ns)

pub leaves_of-append : (ms ns : Nodes) → leaves_of (append ms ns) ≡ leaves_of ms + leaves_of ns
unfolding leaves append
leaves_of-append nil ns = omega arith
leaves_of-append (cons m ms) ns = omega (arith, leaves_of-append ms ns)

pub height_of-append :
    (ms ns : Nodes) → height_of (append ms ns) ≡ max (height_of ms) (height_of ns)
unfolding height append
height_of-append nil ns = omega arith
height_of-append (cons m ms) ns = omega (arith, height_of-append ms ns)

leaves_of-splice :
    (b : Bool) (n : Node) (ns : Nodes) → leaves_of (splice b n ns) ≡ leaves n + leaves_of ns
unfolding leaves splice
leaves_of-splice true (all ms) ns = leaves_of-append ms ns
leaves_of-splice false (any ms) ns = leaves_of-append ms ns
leaves_of-splice true (any ms) ns = refl
leaves_of-splice true (not m) ns = refl
leaves_of-splice true (cond c) ns = refl
leaves_of-splice true (word w) ns = refl
leaves_of-splice false (all ms) ns = refl
leaves_of-splice false (not m) ns = refl
leaves_of-splice false (cond c) ns = refl
leaves_of-splice false (word w) ns = refl

height_of-splice :
    (b : Bool) (n : Node) (ns : Nodes) → height_of (splice b n ns) ≤ max (height n) (height_of ns)
unfolding height splice
height_of-splice true (all ms) ns = omega (arith, height_of-append ms ns)
height_of-splice false (any ms) ns = omega (arith, height_of-append ms ns)
height_of-splice true (any ms) ns = omega arith
height_of-splice true (not m) ns = omega arith
height_of-splice true (cond c) ns = omega arith
height_of-splice true (word w) ns = omega arith
height_of-splice false (all ms) ns = omega arith
height_of-splice false (not m) ns = omega arith
height_of-splice false (cond c) ns = omega arith
height_of-splice false (word w) ns = omega arith

leaves_of-flatten : (b : Bool) (ns : Nodes) → leaves_of (flatten b ns) ≡ leaves_of ns
unfolding leaves flatten
leaves_of-flatten b nil = refl
leaves_of-flatten b (cons n ns) =
    omega (arith, leaves_of-splice b n (flatten b ns), leaves_of-flatten b ns)

height_of-flatten : (b : Bool) (ns : Nodes) → height_of (flatten b ns) ≤ height_of ns
unfolding height flatten
height_of-flatten b nil = omega arith
height_of-flatten b (cons n ns) =
    omega (arith, height_of-splice b n (flatten b ns), height_of-flatten b ns)

leaves-collapse : (b : Bool) (ns : Nodes) → leaves (collapse b ns) ≡ leaves_of ns
unfolding leaves collapse
leaves-collapse true nil = refl
leaves-collapse false nil = refl
leaves-collapse b (cons n nil) = omega arith
leaves-collapse true (cons n (cons m ns)) = refl
leaves-collapse false (cons n (cons m ns)) = refl

height-collapse : (b : Bool) (ns : Nodes) → height (collapse b ns) ≤ suc (height_of ns)
unfolding height collapse
height-collapse true nil = omega arith
height-collapse false nil = omega arith
height-collapse b (cons n nil) = omega arith
height-collapse true (cons n (cons m ns)) = omega arith
height-collapse false (cons n (cons m ns)) = omega arith

-- Joining keeps every leaf.
pub leaves-join : (b : Bool) (ns : Nodes) → leaves (join b ns) ≡ leaves_of ns
unfolding join
leaves-join b ns = omega (arith, leaves-collapse b (flatten b ns), leaves_of-flatten b ns)

-- Joining adds one level at most.
pub height-join : (b : Bool) (ns : Nodes) → height (join b ns) ≤ suc (height_of ns)
unfolding join
height-join b ns = omega (arith, height-collapse b (flatten b ns), height_of-flatten b ns)
