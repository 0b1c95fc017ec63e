-- ===== src/Query/Lexer.antt =====
-- The lexer of internal/query/parse.go. The text from the position on stands for the source and the
-- position; positions are byte offsets.
pub mod Spans
use holodex.Prelude.{
  ℕ, zero, suc, ◌+◌, Str, codes, ◌=s◌, Bool, true, false, not, ◌&&◌, ◌||◌, Option, none, some, List,
  [], ◌∷◌, ◌==◌, if◌then◌else◌, length,
}
use holodex.Query.Result.{Result, ok, err, stuck, ◌>>=◌, fail, syntax}

pub data TokKind : Type 0 where
  eof lparen rparen minus tok_or tok_and tok_not term : TokKind

pub record Token : Type 0 where
  pub kind : TokKind
  pub text : Str
  pub pos : ℕ
  pub stop : ℕ

-- isSpace
abbrev pub is_space : ℕ → Bool
is_space c = c == b' ' || c == 9 || c == 10 || c == 13

abbrev pub ends_term : ℕ → Bool
ends_term c = is_space c || c == b'(' || c == b')'

-- The inner loop of the default case: the term's bytes and what follows it, or the position of a
-- quote that is never closed. `open` is the position of the quote that is open.
pub data Scan : Type 0 where
  ended : Str → Str → ℕ → Scan
  unclosed : ℕ → Scan

abbrev pub prepend : ℕ → Scan → Scan
prepend c (ended text rest i) = ended (c ∷ text) rest i
prepend c (unclosed q) = unclosed q

abbrev pub opens : ℕ → ℕ → Option ℕ
opens c i = if c == 34 then some i else none

abbrev pub closes : ℕ → ℕ → Option ℕ
closes c q = if c == 34 then none else some q

unfoldable pub scan_term : Option ℕ → Str → ℕ → Scan
scan_term none [] i = ended [] [] i
scan_term (some q) [] i = unclosed q
scan_term none (c ∷ s) i =
    let more = prepend c (scan_term (opens c i) s (i + 1)) in
    if ends_term c then ended [] (c ∷ s) i else more
scan_term (some q) (c ∷ s) i = prepend c (scan_term (closes c q) s (i + 1))

unfoldable pub keyword : Str → TokKind
keyword s =
    if s =s codes "OR"
    then tok_or
    else if s =s codes "AND"
    then tok_and
    else if s =s codes "NOT"
    then tok_not
    else term

-- A `-` glued to what follows it.
abbrev pub glued : ℕ → Str → Bool
glued c [] = false
glued c (d ∷ s) = c == b'-' && not (is_space d) && not (d == b')')

abbrev pub add_token : Token → Result (List Token) → Result (List Token)
add_token t (ok ts) = ok (t ∷ ts)
add_token t (err e) = err e
add_token t stuck = stuck

-- One byte's token and the rest of the source, or a whole term's.
abbrev pub punct : TokKind → ℕ → ℕ → Token
punct k c i = record { kind = k; text = c ∷ []; pos = i; stop = i + 1 }

unfoldable pub lex_from : ℕ → Str → ℕ → ℕ → Result (List Token)
unfolding scan_term keyword fail
lex_from fuel [] i len = ok (record { kind = eof; text = []; pos = len; stop = len } ∷ [])
lex_from zero (c ∷ s) i len = stuck
lex_from (suc fuel) (c ∷ s) i len = elim (is_space c) [
  | true ↦ lex_from fuel s (i + 1) len
  | false ↦ elim (c == b'(') [
    | true ↦ add_token (punct lparen c i) (lex_from fuel s (i + 1) len)
    | false ↦ elim (c == b')') [
      | true ↦ add_token (punct rparen c i) (lex_from fuel s (i + 1) len)
      | false ↦ elim (glued c s) [
        | true ↦ add_token (punct minus c i) (lex_from fuel s (i + 1) len)
        | false ↦ elim (scan_term none (c ∷ s) i) [
          | unclosed q ↦ fail syntax q len
          | ended text rest j ↦
              add_token (record { kind = keyword text; text = text; pos = i; stop = j })
                (lex_from fuel rest j len)
        ]
      ]
    ]
  ]
]

-- lex
unfoldable pub lex : Str → Result (List Token)
unfolding lex_from
lex src = lex_from (length src) src 0 (length src)
