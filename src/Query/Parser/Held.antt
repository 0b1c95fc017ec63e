-- ===== src/Query/Parser/Held.antt =====
-- `parse` as a whole returns, within the caps on conditions and depth.
use holodex.Prelude.{
  ℕ, ◌+◌, ◌*◌, ◌≤◌, Str, ◌=s◌, Bool, true, false, [], List, arith, length, ltb, none, if◌then◌else◌,
}
use holodex.Go.Unicode.{Unicode}
use holodex.Query.Tree.{Fields, Node, max_bytes, max_conditions}
use holodex.Query.Result.{Code, Result, ok, err, stuck, ◌>>=◌, fail, too_long, empty, syntax}
use holodex.Query.Lexer.{Token, TokKind, eof, lex}
use holodex.Query.Lexer.Spans.{Lexed, lex-Spans}
use holodex.Query.Parser.{parse, finished}
use holodex.Query.Parser.Size.{leaves, height}
use holodex.Query.Parser.Grammar.{PState, parse_or, peek}
use holodex.Query.Parser.Caps.{Post}
use holodex.Query.Parser.Total.{parse_or-Post}

-- The height of the tallest tree: two levels for each level of nesting, and the three of the
-- outermost expression.
abbrev pub max_height : ℕ
max_height = 19

-- A tree within the caps, or an error; never a run out of fuel.
abbrev pub Held : Result Node → Type 0
Held (ok n) = (leaves n ≤ max_conditions) × (height n ≤ max_height)
Held (err e) = Unit
Held stuck = ⊥

Held-fail : (c : Code) (i j : ℕ) → Held (fail c i j)
unfolding fail
Held-fail c i j = tt

Held-if : (b : Bool) (x y : Result Node) → Held x → Held y → Held (if b then x else y)
Held-if true x y h k = h
Held-if false x y h k = k

Held-bind :
    (P : Node → PState → Type 0) (r : Result (Node × PState)) (k : Node × PState → Result Node)
    → Post P r
    → ((n : Node) (s : PState) → P n s → Held (k (n, s)))
    → Held (r >>= k)
Held-bind P (ok (n, s)) k h f = f n s h
Held-bind P (err e) k h f = tt
Held-bind P stuck k h f = h

module _ (u : Unicode) (fields : Fields) (stored : Bool) (len : ℕ) where
  finished-Held :
      (n : Node) (s : PState)
      → (leaves n ≤ max_conditions) × (height n ≤ max_height)
      → Held (finished u fields stored len (n, s))
  finished-Held n s h = by_kind (peek len s).kind
    where
      by_kind :
          (k : TokKind)
          → Held (elim k [ eof ↦ ok n | _ ↦ fail syntax (peek len s).pos (peek len s).stop ])
      by_kind eof = h
      by_kind _ = Held-fail _ _ _

  tokens-Held :
      (src : Str) (r : Result (List Token))
      → Lexed src r
      → Held (
          r >>= λ toks.
          parse_or u fields stored len
            (4 * length toks + 4)
            0
            (record { toks = toks; prev = none; conds = 0 })
          >>= finished u fields stored len)
  tokens-Held src (ok toks) h =
      Held-bind _ _ (finished u fields stored len)
        (parse_or-Post u fields stored len (4 * length toks + 4) 0 _ (omega arith) (omega arith))
        (λ n s p. finished-Held n s (omega (arith, p.counted, p.capped), omega (arith, p.bounded)))
  tokens-Held src (err e) h = tt
  tokens-Held src stuck h = h

-- For every text, catalogue of fields and mode, parsing ends with an error or with a tree; the tree
-- has at most 64 conditions and words and at most 19 levels.
pub parse-Held :
    (u : Unicode) (fields : Fields) (stored : Bool) (src : Str) → Held (parse u fields stored src)
unfolding parse
parse-Held u fields stored src =
    Held-if (ltb max_bytes (length src)) _ _ (Held-fail too_long max_bytes (length src)) (
      Held-if (u.trim_space src =s []) _ _ (Held-fail empty 0 (length src))
        (tokens-Held u fields stored (length src) src (lex src) (lex-Spans src)))
