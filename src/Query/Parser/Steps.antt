-- ===== src/Query/Parser/Steps.antt =====
-- Each branch of the parser keeps what holds of its loops, given the calls that it makes.
use holodex.Prelude.{
  ℕ, suc, ◌-◌, ◌*◌, ◌≤◌, ◌≡◌, refl, Bool, true, false, arith, length, ltb, if◌then◌else◌,
}
use holodex.Query.Tree.{
  Node, Nodes, any, all, not, cond, word, nil, cons, max_depth, max_conditions,
}
use holodex.Query.Result.{syntax, Result, ok, err, stuck, ◌>>=◌, fail}
use holodex.Query.Lexer.{TokKind, Token, eof, lparen, rparen, minus, tok_or, tok_and, tok_not, term}
use holodex.Query.Term.Leaf.{IsLeaf, Leaves}
use holodex.Query.Parser.Size.{leaves, height}
use holodex.Query.Parser.Grammar.{
  leaf, PState, Rest, peek, advance, or_step, after_and, and_step, deeper, after_not, negation,
  negated, close_paren, parenthesis, counted, unary_step, ended_and,
}
use holodex.Query.Parser.Caps.{
  Post, Post-bind, Parsed, Loop, filled, missing_operand-Post, Loop-ended, Loop-advance,
  advance_shorter, negate_size,
}

Post-fail :
    (P : Node → PState → Type 0) (c : holodex.Query.Result.Code) (i j : ℕ) → Post P (fail c i j)
unfolding fail
Post-fail P c i j = tt

Post-if :
    (P : Node → PState → Type 0) (b : Bool) (x y : Result (Node × PState))
    → Post P x
    → (b ≡ false → Post P y)
    → Post P (if b then x else y)
Post-if P true x y h k = h
Post-if P false x y h k = k refl

module _ (len room base top : ℕ) where
  pub or_step-Post :
      (items : Nodes) (again : Rest) (s : PState)
      → filled items ≡ 1
      → Loop room base top items s
      → (suc (length (advance s).toks) ≡ length s.toks
          → Loop room base top items (advance s)
          → Post (Parsed room base (suc top)) (again (advance s)))
      → (k : TokKind) → (peek len s).kind ≡ k
      → Post (Parsed room base (suc top)) (or_step k items again s)
  or_step-Post items again s e l more tok_or q =
      more (advance_shorter len s tok_or q refl)
        (Loop-advance room base top items s len tok_or q refl l)
  or_step-Post items again s e l more _ q = Loop-ended room base top false items s e l

  ended_and-Post :
      (items : Nodes) (s : PState)
      → Loop room base top items s
      → Post (Parsed room base (suc top)) (ended_and len items s)
  ended_and-Post nil s l = missing_operand-Post _ len s (peek len s)
  ended_and-Post (cons n ns) s l = Loop-ended room base top true (cons n ns) s refl l

  after_and-Post :
      (b : Bool) (again : Rest) (s : PState)
      → Post (Parsed room base (suc top)) (again s)
      → Post (Parsed room base (suc top)) (after_and len b again s)
  after_and-Post true again s h = missing_operand-Post _ len s (peek len s)
  after_and-Post false again s h = h

  pub and_step-Post :
      (items : Nodes) (again operand : Rest) (s : PState)
      → Loop room base top items s
      → (suc (length (advance s).toks) ≡ length s.toks
          → Loop room base top items (advance s)
          → Post (Parsed room base (suc top)) (again (advance s)))
      → Post (Parsed room base (suc top)) (operand s)
      → (k : TokKind) → (peek len s).kind ≡ k
      → Post (Parsed room base (suc top)) (and_step len k items again operand s)
  and_step-Post items again operand s l more one eof q = ended_and-Post items s l
  and_step-Post items again operand s l more one rparen q = ended_and-Post items s l
  and_step-Post items again operand s l more one tok_or q = ended_and-Post items s l
  and_step-Post nil again operand s l more one tok_and q = Post-fail _ _ _ _
  and_step-Post (cons n ns) again operand s l more one tok_and q =
      after_and-Post _ again (advance s) (
        more (advance_shorter len s tok_and q refl)
          (Loop-advance room base top (cons n ns) s len tok_and q refl l))
  and_step-Post items again operand s l more one _ q = one

-- The height of a tree that parseUnary returns at a depth.
abbrev pub unary_top : ℕ → ℕ
unary_top depth = suc (2 * (max_depth - depth))

counted-Post :
    (len depth : ℕ) (s : PState) (t : Token)
    → suc (length (advance s).toks) ≡ length s.toks
    → (r : Result Node) → Leaves r
    → Post (Parsed (length s.toks) s.conds (unary_top depth)) (counted len t (advance s) r)
unfolding leaves height
counted-Post len depth s t l r h =
    Post-if _ (ltb max_conditions (suc s.conds)) _ _ (Post-fail _ _ _ _) (by_term r h)
  where
    one_leaf :
        (n : Node)
        → IsLeaf n
        → ltb max_conditions (suc s.conds) ≡ false
        → Post (Parsed (length s.toks) s.conds (unary_top depth)) (leaf (advance s) n)
    one_leaf (cond c) h e = record {
      shorter = omega (arith, l);
      counted = omega arith;
      capped = ground arith;
      bounded = omega arith;
    }
    one_leaf (word w) h e = record {
      shorter = omega (arith, l);
      counted = omega arith;
      capped = ground arith;
      bounded = omega arith;
    }
    one_leaf (any ns) h e = absurd h
    one_leaf (all ns) h e = absurd h
    one_leaf (not n) h e = absurd h

    by_term :
        (r : Result Node)
        → Leaves r
        → ltb max_conditions (suc s.conds) ≡ false
        → Post (Parsed (length s.toks) s.conds (unary_top depth)) (r >>= leaf (advance s))
    by_term (ok n) h e = one_leaf n h e
    by_term (err x) h e = tt
    by_term stuck h e = h

module _ (len depth : ℕ) (s : PState) where
  abbrev Inside : ℕ → Rest → Type 0
  Inside top inside = Post (Parsed (length (advance s).toks) s.conds top) (inside (advance s))

  after_not-Post :
      (b : Bool) (t : Token) (inside : Rest)
      → suc depth ≤ max_depth
      → suc (length (advance s).toks) ≡ length s.toks
      → Inside (unary_top (suc depth)) inside
      → Post
          (Parsed (length s.toks) s.conds (unary_top depth))
          (after_not len b t inside (advance s))
  after_not-Post true t inside d l h = Post-fail _ _ _ _
  after_not-Post false t inside d l h = Post-bind _ _ (inside (advance s)) negated h (λ n s' p.
      record {
        shorter = omega (arith, p.shorter);
        counted = omega (arith, p.counted, (negate_size n).0);
        capped = p.capped;
        bounded = omega (arith, p.bounded, (negate_size n).1);
      })

  parenthesis-Post :
      (group : Rest)
      → suc depth ≤ max_depth
      → suc (length (advance s).toks) ≡ length s.toks
      → Inside (suc (suc (unary_top (suc depth)))) group
      → Post (Parsed (length s.toks) s.conds (unary_top depth)) (parenthesis len group s)
  parenthesis-Post group d l h =
      Post-bind _ _ (group (advance s)) (close_paren len (peek len s)) h
        (λ n s' p. closed n s' p (peek len s').kind refl)
    where
      closed :
          (n : Node) (s' : PState)
          → Parsed (length (advance s).toks) s.conds (suc (suc (unary_top (suc depth)))) n s'
          → (k : TokKind) → (peek len s').kind ≡ k
          → Post (Parsed (length s.toks) s.conds (unary_top depth)) (elim k [
            | rparen ↦ ok (n, advance s')
            | _ ↦ fail syntax (peek len s).pos (peek len s).stop
          ])
      closed n s' p rparen q = record {
        shorter = omega (arith, p.shorter, advance_shorter len s' rparen q refl);
        counted = p.counted;
        capped = p.capped;
        bounded = omega (arith, p.bounded);
      }
      closed n s' p _ q = Post-fail _ _ _ _

  deeper-Post :
      (P : Node → PState → Type 0) (inside : Rest)
      → (suc depth ≤ max_depth → Post P (inside s))
      → Post P (deeper len (ltb max_depth (suc depth)) inside s)
  deeper-Post P inside h = by_depth (ltb max_depth (suc depth)) (λ e. h (ground arith))
    where
      by_depth : (b : Bool) → (b ≡ false → Post P (inside s)) → Post P (deeper len b inside s)
      by_depth true k = Post-fail _ _ _ _
      by_depth false k = k refl

  pub unary_step-Post :
      (operand group : Rest) (read : Token → Result Node)
      → (suc depth ≤ max_depth
          → suc (length (advance s).toks) ≡ length s.toks
          → Inside (unary_top (suc depth)) operand)
      → (suc depth ≤ max_depth
          → suc (length (advance s).toks) ≡ length s.toks
          → Inside (suc (suc (unary_top (suc depth)))) group)
      → ((t : Token) → Leaves (read t))
      → (k : TokKind) → (peek len s).kind ≡ k
      → Post
          (Parsed (length s.toks) s.conds (unary_top depth))
          (unary_step len k (ltb max_depth (suc depth)) operand group read s)
  unary_step-Post operand group read h g r minus q =
      let l = advance_shorter len s minus q refl in
      deeper-Post _ (negation len operand) (λ d. after_not-Post _ _ operand d l (h d l))
  unary_step-Post operand group read h g r tok_not q =
      let l = advance_shorter len s tok_not q refl in
      deeper-Post _ (negation len operand) (λ d. after_not-Post _ _ operand d l (h d l))
  unary_step-Post operand group read h g r lparen q =
      let l = advance_shorter len s lparen q refl in
      deeper-Post _ (parenthesis len group) (λ d. parenthesis-Post group d l (g d l))
  unary_step-Post operand group read h g r term q =
      counted-Post len depth s (peek len s) (advance_shorter len s term q refl) (read (peek len s))
        (r (peek len s))
  unary_step-Post operand group read h g r _ q = missing_operand-Post _ len s (peek len s)
