-- ===== src/Query/Parser/Grammar.antt =====
-- parseOr, parseAnd and parseUnary of internal/query/parse.go.
use holodex.Prelude.{
  ℕ, zero, suc, Str, ◌=s◌, Bool, true, false, Option, none, some, List, [], ◌∷◌, ltb, if◌then◌else◌,
}
use holodex.Go.Unicode.{Unicode}
use holodex.Query.Tree.{
  Fields, Node, Nodes, not, cond, nil, cons, field_watched, watched_yes, watched_no, max_depth,
  max_conditions,
}
use holodex.Query.Result.{Result, ok, stuck, ◌>>=◌, fail, empty, syntax, too_deep, too_many}
use holodex.Query.Lexer.{TokKind, Token, eof, lparen, rparen, minus, tok_or, tok_and, tok_not, term}
use holodex.Query.Term.{term_node}
use holodex.Query.Parser.Join.{append, join}

pub record PState : Type 0 where
  pub toks : List Token
  pub prev : Option Token
  pub conds : ℕ

abbrev head_token : ℕ → List Token → Token
head_token len [] = record { kind = eof; text = []; pos = len; stop = len }
head_token len (t ∷ ts) = t

-- parser.peek
abbrev pub peek : ℕ → PState → Token
peek len s = head_token len s.toks

abbrev tail_tokens : List Token → List Token
tail_tokens [] = []
tail_tokens (t ∷ ts) = ts

abbrev head_option : List Token → Option Token → Option Token
head_option [] p = p
head_option (t ∷ ts) p = some t

-- parser.next
abbrev pub advance : PState → PState
advance s = record s { toks = tail_tokens s.toks; prev = head_option s.toks s.prev }

unfoldable pub flip_watched : Str → Str
flip_watched v =
    if v =s watched_yes then watched_no else if v =s watched_no then watched_yes else []

-- A negated `watched:` is its other value.
unfoldable pub negate : Node → Node
unfolding flip_watched
negate (cond c) =
    if c.field =s field_watched
    then cond (record c { value = flip_watched c.value })
    else not (cond c)
negate n = not n

abbrev prev_error : ℕ → Option Token → Result (Node × PState)
prev_error len none = fail empty 0 len
prev_error len (some t) = fail syntax t.pos t.stop

-- parser.missingOperand
unfoldable pub missing_operand : ℕ → PState → Token → Result (Node × PState)
unfolding fail
missing_operand len s t = elim t.kind [
  | tok_or ↦ fail syntax t.pos t.stop
  | rparen ↦ fail syntax t.pos t.stop
  | _ ↦ prev_error len s.prev
]

-- The kinds that no operand begins with, after AND, and after a negation too.
abbrev pub ends_and : TokKind → Bool
ends_and eof = true
ends_and rparen = true
ends_and tok_or = true
ends_and _ = false

abbrev pub ends_unary : TokKind → Bool
ends_unary tok_and = true
ends_unary k = ends_and k

abbrev pub joined : Bool → Nodes → PState → Result (Node × PState)
joined b items s = ok (join b items, s)

abbrev pub ended_and : ℕ → Nodes → PState → Result (Node × PState)
ended_and len nil s = missing_operand len s (peek len s)
ended_and len (cons n ns) s = ok (join true (cons n ns), s)

abbrev pub close_paren : ℕ → Token → Node × PState → Result (Node × PState)
close_paren len t (n, s) = elim (peek len s).kind [
  | rparen ↦ ok (n, advance s)
  | _ ↦ fail syntax t.pos t.stop
]

abbrev pub negated : Node × PState → Result (Node × PState)
negated (n, s) = ok (negate n, s)

abbrev pub leaf : PState → Node → Result (Node × PState)
leaf s n = ok (n, record s { conds = suc s.conds })

abbrev pub counted : ℕ → Token → PState → Result Node → Result (Node × PState)
counted len t s r =
    if ltb max_conditions (suc s.conds) then fail too_many t.pos len else (r >>= leaf s)

-- The branches of the loops and of parseUnary, over the calls that they make.
abbrev pub Rest : Type 0
Rest = PState → Result (Node × PState)

abbrev pub or_step : TokKind → Nodes → Rest → Rest
or_step tok_or items again s = again (advance s)
or_step _ items again s = joined false items s

abbrev pub after_and : ℕ → Bool → Rest → Rest
after_and len true again s = missing_operand len s (peek len s)
after_and len false again s = again s

abbrev pub and_step : ℕ → TokKind → Nodes → Rest → Rest → Rest
and_step len eof items again operand s = ended_and len items s
and_step len rparen items again operand s = ended_and len items s
and_step len tok_or items again operand s = ended_and len items s
and_step len tok_and nil again operand s = fail syntax (peek len s).pos (peek len s).stop
and_step len tok_and (cons n ns) again operand s =
    after_and len (ends_and (peek len (advance s)).kind) again (advance s)
and_step len _ items again operand s = operand s

-- A negation or a parenthesis takes one level.
abbrev pub deeper : ℕ → Bool → Rest → Rest
deeper len true inside s = fail too_deep (peek len s).pos (peek len s).stop
deeper len false inside s = inside s

abbrev pub after_not : ℕ → Bool → Token → Rest → Rest
after_not len true t inside s = fail syntax t.pos t.stop
after_not len false t inside s = inside s >>= negated

abbrev pub negation : ℕ → Rest → Rest
negation len inside s =
    after_not len (ends_unary (peek len (advance s)).kind) (peek len s) inside (advance s)

abbrev pub parenthesis : ℕ → Rest → Rest
parenthesis len inside s = inside (advance s) >>= close_paren len (peek len s)

abbrev pub unary_step : ℕ → TokKind → Bool → Rest → Rest → (Token → Result Node) → Rest
unary_step len minus deep operand group read s = deeper len deep (negation len operand) s
unary_step len tok_not deep operand group read s = deeper len deep (negation len operand) s
unary_step len lparen deep operand group read s = deeper len deep (parenthesis len group) s
unary_step len term deep operand group read s =
    counted len (peek len s) (advance s) (read (peek len s))
unary_step len _ deep operand group read s = missing_operand len s (peek len s)

module _ (u : Unicode) (fields : Fields) (stored : Bool) (len : ℕ) where
  unfoldable mutual
    unfolding join append negate missing_operand fail

    pub parse_or : ℕ → ℕ → PState → Result (Node × PState)
    parse_or zero depth s = stuck
    parse_or (suc f) depth s = parse_and f depth s >>= λ (n, s'). or_items f depth (cons n nil) s'

    -- The loop of parseOr
    pub or_items : ℕ → ℕ → Nodes → PState → Result (Node × PState)
    or_items zero depth items s = stuck
    or_items (suc f) depth items s =
        or_step (peek len s).kind items
          (λ s'.
            parse_and f depth s' >>= λ (n, s''). or_items f depth (append items (cons n nil)) s'')
          s

    pub parse_and : ℕ → ℕ → PState → Result (Node × PState)
    parse_and zero depth s = stuck
    parse_and (suc f) depth s = and_items f depth nil s

    -- The loop of parseAnd
    pub and_items : ℕ → ℕ → Nodes → PState → Result (Node × PState)
    and_items zero depth items s = stuck
    and_items (suc f) depth items s =
        and_step len (peek len s).kind items (λ s'. and_items f depth items s')
          (λ s'. parse_unary f depth s' >>= λ (n, s'').
            and_items f depth (append items (cons n nil)) s'')
          s

    pub parse_unary : ℕ → ℕ → PState → Result (Node × PState)
    parse_unary zero depth s = stuck
    parse_unary (suc f) depth s =
        unary_step len (peek len s).kind (ltb max_depth (suc depth))
          (λ s'. parse_unary f (suc depth) s') (λ s'. parse_or f (suc depth) s')
          (term_node u fields stored) s
