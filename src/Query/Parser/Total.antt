-- ===== src/Query/Parser/Total.antt =====
-- The parser returns within its fuel: induction on it over parseOr, parseAnd, parseUnary and the
-- two loops at once.
use holodex.Prelude.{ℕ, zero, suc, ◌+◌, ◌*◌, ◌≤◌, ◌<◌, ◌≡◌, refl, arith, length, Bool}
use holodex.Go.Unicode.{Unicode}
use holodex.Query.Tree.{Fields, Node, Nodes, nil, cons, max_conditions}
use holodex.Query.Term.{term_node}
use holodex.Query.Term.Leaf.{term_node-IsTerm}
use holodex.Query.Parser.Join.{append}
use holodex.Query.Parser.Size.{leaves, height}
use holodex.Query.Parser.Grammar.{
  PState, peek, advance, parse_or, or_items, parse_and, and_items, parse_unary,
}
use holodex.Query.Parser.Caps.{Post, Post-bind, Parsed, Loop, filled, filled-append, Loop-add}
use holodex.Query.Parser.Steps.{unary_top, or_step-Post, and_step-Post, unary_step-Post}

module _ (u : Unicode) (fields : Fields) (stored : Bool) (len : ℕ) where
  record Fueled (f : ℕ) : Type 0 where
    or :
        (d : ℕ) (s : PState)
        → 4 * length s.toks + 3 < f
        → s.conds ≤ max_conditions
        → Post
            (Parsed (length s.toks) s.conds (suc (suc (unary_top d))))
            (parse_or u fields stored len f d s)
    or_loop :
        (d room base : ℕ) (items : Nodes) (s : PState)
        → 4 * length s.toks < f
        → filled items ≡ 1
        → Loop room base (suc (unary_top d)) items s
        → Post
            (Parsed room base (suc (suc (unary_top d))))
            (or_items u fields stored len f d items s)
    and :
        (d : ℕ) (s : PState)
        → 4 * length s.toks + 2 < f
        → s.conds ≤ max_conditions
        → Post
            (Parsed (length s.toks) s.conds (suc (unary_top d)))
            (parse_and u fields stored len f d s)
    and_loop :
        (d room base : ℕ) (items : Nodes) (s : PState)
        → 4 * length s.toks + 1 < f
        → Loop room base (unary_top d) items s
        → Post (Parsed room base (suc (unary_top d))) (and_items u fields stored len f d items s)
    unary :
        (d : ℕ) (s : PState)
        → 4 * length s.toks < f
        → s.conds ≤ max_conditions
        → Post
            (Parsed (length s.toks) s.conds (unary_top d))
            (parse_unary u fields stored len f d s)

  Loop-one :
      (top : ℕ) (s : PState) (n : Node) (s' : PState)
      → Parsed (length s.toks) s.conds top n s'
      → Loop (length s.toks) s.conds top (cons n nil) s'
  unfolding leaves height
  Loop-one top s n s' p = record {
    fits = omega (arith, p.shorter);
    counted = omega (arith, p.counted);
    capped = p.capped;
    bounded = omega (arith, p.bounded);
  }

  Fueled-zero : Fueled 0
  unfolding parse_or
  Fueled-zero = record {
    or = λ d s h c. omega (arith, h);
    or_loop = λ d room base items s h e l. omega (arith, h);
    and = λ d s h c. omega (arith, h);
    and_loop = λ d room base items s h l. omega (arith, h);
    unary = λ d s h c. omega (arith, h);
  }

  module _ (f : ℕ) (k : Fueled f) where
    or-suc :
        (d : ℕ) (s : PState)
        → 4 * length s.toks + 3 < suc f
        → s.conds ≤ max_conditions
        → Post
            (Parsed (length s.toks) s.conds (suc (suc (unary_top d))))
            (parse_or u fields stored len (suc f) d s)
    unfolding parse_or
    or-suc d s h c =
        Post-bind _ _ (parse_and u fields stored len f d s) _ (k.and d s (omega (arith, h)) c)
          (λ n s' p.
            k.or_loop d _ _ (cons n nil) s' (omega (arith, h, p.shorter)) refl
              (Loop-one _ s n s' p))

    or_Loop-suc :
        (d room base : ℕ) (items : Nodes) (s : PState)
        → 4 * length s.toks < suc f
        → filled items ≡ 1
        → Loop room base (suc (unary_top d)) items s
        → Post
            (Parsed room base (suc (suc (unary_top d))))
            (or_items u fields stored len (suc f) d items s)
    unfolding or_items
    or_Loop-suc d room base items s h e l =
        or_step-Post len room base _ items _ s e l
          (λ one l'.
            Post-bind _ _ (parse_and u fields stored len f d (advance s)) _
              (k.and d (advance s) (omega (arith, h, one)) l.capped)
              (λ n s' p.
                k.or_loop d room base (append items (cons n nil)) s'
                  (omega (arith, h, one, p.shorter)) (filled-append items n)
                  (Loop-add room base _ items (advance s) n s' l' p)))
          (peek len s).kind refl

    and-suc :
        (d : ℕ) (s : PState)
        → 4 * length s.toks + 2 < suc f
        → s.conds ≤ max_conditions
        → Post
            (Parsed (length s.toks) s.conds (suc (unary_top d)))
            (parse_and u fields stored len (suc f) d s)
    unfolding parse_and leaves height
    and-suc d s h c =
        k.and_loop d _ _ nil s (omega (arith, h))
          (record { fits = omega arith; counted = omega arith; capped = c; bounded = omega arith })

    and_Loop-suc :
        (d room base : ℕ) (items : Nodes) (s : PState)
        → 4 * length s.toks + 1 < suc f
        → Loop room base (unary_top d) items s
        → Post
            (Parsed room base (suc (unary_top d)))
            (and_items u fields stored len (suc f) d items s)
    unfolding and_items
    and_Loop-suc d room base items s h l =
        and_step-Post len room base _ items _ _ s l
          (λ one l'. k.and_loop d room base items (advance s) (omega (arith, h, one)) l')
          (Post-bind _ _ (parse_unary u fields stored len f d s) _
            (k.unary d s (omega (arith, h)) l.capped)
            (λ n s' p.
              k.and_loop d room base (append items (cons n nil)) s' (omega (arith, h, p.shorter))
                (Loop-add room base _ items s n s' l p)))
          (peek len s).kind refl

    unary-suc :
        (d : ℕ) (s : PState)
        → 4 * length s.toks < suc f
        → s.conds ≤ max_conditions
        → Post
            (Parsed (length s.toks) s.conds (unary_top d))
            (parse_unary u fields stored len (suc f) d s)
    unfolding parse_unary
    unary-suc d s h c =
        unary_step-Post len d s (λ s'. parse_unary u fields stored len f (suc d) s')
          (λ s'. parse_or u fields stored len f (suc d) s') (term_node u fields stored)
          (λ e one. k.unary (suc d) (advance s) (omega (arith, h, one)) c)
          (λ e one. k.or (suc d) (advance s) (omega (arith, h, one)) c)
          (λ t. (term_node-IsTerm u fields stored t).leaves) (peek len s).kind refl

  Fueled-all : (f : ℕ) → Fueled f
  Fueled-all zero = Fueled-zero
  Fueled-all (suc f) =
      let k = Fueled-all f in
      record {
        or = or-suc f k;
        or_loop = or_Loop-suc f k;
        and = and-suc f k;
        and_loop = and_Loop-suc f k;
        unary = unary-suc f k;
      }

  -- With fuel for every token, parseOr at a depth returns a tree or an error.
  pub parse_or-Post :
      (f d : ℕ) (s : PState)
      → 4 * length s.toks + 3 < f
      → s.conds ≤ max_conditions
      → Post
          (Parsed (length s.toks) s.conds (suc (suc (unary_top d))))
          (parse_or u fields stored len f d s)
  parse_or-Post f d s h c = (Fueled-all f).or d s h c
