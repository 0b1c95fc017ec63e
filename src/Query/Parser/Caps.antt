-- ===== src/Query/Parser/Caps.antt =====
-- The parser ends within its fuel, and holds a query to its caps.
use holodex.Prelude.{
  ℕ, suc, ◌+◌, ◌≤◌, ◌<◌, ◌≡◌, refl, Bool, true, false, List, [], ◌∷◌, arith, length,
}
use holodex.Query.Tree.{Node, Nodes, any, all, not, cond, word, nil, cons, max_conditions}
use holodex.Query.Result.{Result, ok, err, stuck, ◌>>=◌}
use holodex.Query.Lexer.{TokKind, Token, eof}
use holodex.Query.Parser.Join.{append, join}
use holodex.Query.Parser.Size.{
  leaves, leaves_of, height, height_of, leaves_of-append, height_of-append, leaves-join,
  height-join,
}
use holodex.Query.Parser.Grammar.{PState, peek, advance, negate, missing_operand}

-- What holds of a parse that returns; it never runs out of fuel.
abbrev pub Post : (Node → PState → Type 0) → Result (Node × PState) → Type 0
Post P (ok (n, s)) = P n s
Post P (err e) = Unit
Post P stuck = ⊥

pub Post-bind :
    (P Q : Node → PState → Type 0) (r : Result (Node × PState))
    (k : Node × PState → Result (Node × PState))
    → Post P r
    → ((n : Node) (s : PState) → P n s → Post Q (k (n, s)))
    → Post Q (r >>= k)
Post-bind P Q (ok (n, s)) k h f = f n s h
Post-bind P Q (err e) k h f = tt
Post-bind P Q stuck k h f = h

pub Post-map :
    (P Q : Node → PState → Type 0) (r : Result (Node × PState))
    → Post P r
    → ((n : Node) (s : PState) → P n s → Q n s)
    → Post Q r
Post-map P Q (ok (n, s)) h f = f n s h
Post-map P Q (err e) h f = tt
Post-map P Q stuck h f = h

pub missing_operand-Post :
    (P : Node → PState → Type 0) (len : ℕ) (s : PState) (t : Token)
    → Post P (missing_operand len s t)
unfolding missing_operand
missing_operand-Post P len s t = ground arith

abbrev pub is_eof : TokKind → Bool
is_eof eof = true
is_eof _ = false

-- A token that is not the end is one less to read.
pub advance_shorter :
    (len : ℕ) (s : PState) (k : TokKind)
    → (peek len s).kind ≡ k
    → is_eof k ≡ false
    → suc (length (advance s).toks) ≡ length s.toks
advance_shorter len s k e h = by_tokens s.toks refl
  where
    by_tokens : (ts : List Token) → s.toks ≡ ts → suc (length (advance s).toks) ≡ length s.toks
    by_tokens [] q = ground arith
    by_tokens (t ∷ ts) q = ground arith

pub negate_size : (n : Node) → (leaves (negate n) ≡ leaves n) × (height (negate n) ≤ suc (height n))
unfolding negate leaves height
negate_size (cond c) = ground arith
negate_size (any ns) = (refl, omega arith)
negate_size (all ns) = (refl, omega arith)
negate_size (not n) = (refl, omega arith)
negate_size (word w) = (refl, omega arith)

-- What a part of the grammar returns: fewer tokens than `room` left, the leaves counted from `base`
-- and within the cap, and a tree no higher than `top`.
pub record Parsed (room base top : ℕ) (n : Node) (s : PState) : Type 0 where
  pub shorter : length s.toks < room
  pub counted : s.conds ≡ base + leaves n
  pub capped : s.conds ≤ max_conditions
  pub bounded : height n ≤ top

abbrev pub filled : Nodes → ℕ
filled nil = 0
filled (cons n ns) = 1

-- What holds at the head of a loop over operands.
pub record Loop (room base top : ℕ) (items : Nodes) (s : PState) : Type 0 where
  pub fits : length s.toks + filled items ≤ room
  pub counted : base + leaves_of items ≡ s.conds
  pub capped : s.conds ≤ max_conditions
  pub bounded : height_of items ≤ top

pub filled-append : (ms : Nodes) (n : Node) → filled (append ms (cons n nil)) ≡ 1
unfolding append
filled-append nil n = refl
filled-append (cons m ms) n = refl

pub Loop-add :
    (room base top : ℕ) (items : Nodes) (s : PState) (n : Node) (s' : PState)
    → Loop room base top items s
    → Parsed (length s.toks) s.conds top n s'
    → Loop room base top (append items (cons n nil)) s'
unfolding leaves height
Loop-add room base top items s n s' l p = record {
  fits = omega (arith, filled-append items n, l.fits, p.shorter);
  counted = omega (arith, leaves_of-append items (cons n nil), l.counted, p.counted);
  capped = p.capped;
  bounded = omega (arith, height_of-append items (cons n nil), l.bounded, p.bounded);
}

pub Loop-ended :
    (room base top : ℕ) (b : Bool) (items : Nodes) (s : PState)
    → filled items ≡ 1
    → Loop room base top items s
    → Parsed room base (suc top) (join b items) s
Loop-ended room base top b items s e l = record {
  shorter = omega (arith, l.fits);
  counted = omega (arith, leaves-join b items, l.counted);
  capped = l.capped;
  bounded = omega (arith, height-join b items, l.bounded);
}

pub Loop-advance :
    (room base top : ℕ) (items : Nodes) (s : PState) (len : ℕ) (k : TokKind)
    → (peek len s).kind ≡ k
    → is_eof k ≡ false
    → Loop room base top items s
    → Loop room base top items (advance s)
Loop-advance room base top items s len k e h l = record {
  fits = omega (arith, l.fits, advance_shorter len s k e h);
  counted = l.counted;
  capped = l.capped;
  bounded = l.bounded;
}
