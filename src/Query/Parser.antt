-- ===== src/Query/Parser.antt =====
-- The recursive-descent parser of internal/query/parse.go. It works on the tokens not yet read, the
-- last one read, and the number of conditions so far; each call takes one unit of fuel.
pub mod Join
pub mod Grammar
pub mod Size
pub mod Caps
pub mod Steps
pub mod Total
pub mod Held
use holodex.Prelude.{
  ℕ, ◌+◌, ◌*◌, Str, ◌=s◌, Bool, true, false, [], ◌∷◌, length, ltb, none, if◌then◌else◌,
}
use holodex.Go.Unicode.{Unicode}
use holodex.Query.Tree.{Fields, Node, max_bytes}
use holodex.Query.Result.{Result, ok, err, ◌>>=◌, fail, empty, too_long, syntax}
use holodex.Query.Lexer.{Token, TokKind, eof, lex}
use Grammar.{PState, parse_or, peek}

module _ (u : Unicode) (fields : Fields) (stored : Bool) where
  -- What is left after the whole expression must be the end.
  abbrev finished : ℕ → Node × PState → Result Node
  finished len (n, s) = elim (peek len s).kind [
    | eof ↦ ok n
    | _ ↦ fail syntax (peek len s).pos (peek len s).stop
  ]

  -- parse, which Parse, ParseWith and ParseStored call
  unfoldable pub parse : Str → Result Node
  unfolding lex parse_or fail
  parse src =
      let len = length src in
      if ltb max_bytes len
      then fail too_long max_bytes len
      else if u.trim_space src =s []
      then fail empty 0 len
      else (lex src >>= λ toks.
          parse_or u fields stored len (4 * length toks + 4) 0
            (record { toks = toks; prev = none; conds = 0 })
          >>= finished len)
