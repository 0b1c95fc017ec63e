-- ===== src/Query/Print/Words.antt =====
-- A value as it is printed lexes back as one term.
use holodex.Prelude.{
  ℕ, ◌+◌, ◌≡◌, refl, ap, ◌∙◌, arith, Str, ◌=s◌, Bool, true, false, none, some, [], ◌∷◌, ◌++◌, ◌==◌,
  length, length-append, if◌then◌else◌, take, ◌&&◌, ◌||◌,
}
use holodex.Go.Strings.{has, first_is, last_is}
use holodex.Go.Strconv.{parse_int}
use holodex.Query.Term.{is_quoted, inner, unquoted}
use holodex.Query.Result.{ok}
use holodex.Query.Lexer.{
  is_space, glued, Token, eof, term, ended, prepend, scan_term, keyword, lex, lex_from, ends_term,
}
use holodex.Query.Print.{
  quote_if_needed, is_number, is_keyword, needs_quotes, quoted_text, separates,
}

-- Inside quotes the scan goes on to the closing one.
scan_term-quoted :
    (s : Str) (q i : ℕ)
    → has (λ c. c == 34) s ≡ false
    → scan_term (some q) (s ++ (34 ∷ [])) i ≡ ended (s ++ (34 ∷ [])) [] (i + length s + 1)
unfolding scan_term has
scan_term-quoted [] q i h = ground arith
scan_term-quoted (c ∷ s) q i h = ground (arith, scan_term-quoted s q (i + 1))

scan_term-plain :
    (s : Str) (i : ℕ)
    → has (λ c. c == 34) s ≡ false
    → has ends_term s ≡ false
    → scan_term none s i ≡ ended s [] (i + length s)
unfolding scan_term has
scan_term-plain [] i h k = ground arith
scan_term-plain (c ∷ s) i h k = ground (arith, scan_term-plain s (i + 1))

abbrev pub end_token : Str → Token
end_token s = record { kind = eof; text = []; pos = length s; stop = length s }

abbrev pub term_token : Str → Token
term_token s = record { kind = term; text = s; pos = 0; stop = length s }

-- Lexing yields this one term.
abbrev pub Whole : Str → Type 0
Whole s = lex s ≡ ok (term_token s ∷ end_token s ∷ [])

-- A source that one scan takes whole is one term.
lex-one :
    (c : ℕ) (s : Str)
    → is_space c ≡ false
    → (c == b'(') ≡ false
    → (c == b')') ≡ false
    → glued c s ≡ false
    → scan_term none (c ∷ s) 0 ≡ ended (c ∷ s) [] (length (c ∷ s))
    → keyword (c ∷ s) ≡ term
    → Whole (c ∷ s)
unfolding lex lex_from
lex-one c s h1 h2 h3 h4 h5 h6 = cc

glued-quote : (s : Str) → glued 34 s ≡ false
glued-quote [] = refl
glued-quote (d ∷ s) = refl

lex-quoted : (s : Str) → has (λ c. c == 34) s ≡ false → Whole (quoted_text s)
unfolding scan_term keyword ◌=s◌
lex-quoted s h =
    lex-one 34 (s ++ (34 ∷ [])) refl refl refl (glued-quote (s ++ (34 ∷ [])))
      (ap (prepend 34) (scan_term-quoted s 0 1 h)
        ∙ ap (ended (34 ∷ (s ++ (34 ∷ []))) []) (omega (arith, length-append {0} s (34 ∷ []))))
      refl

-- A text that needs no quotes has no byte that ends a term.
ends_term-separates : (s : Str) → has separates s ≡ false → has ends_term s ≡ false
unfolding has
ends_term-separates [] h = refl
ends_term-separates (c ∷ s) h = ground (arith, ends_term-separates s)

keyword-plain : (s : Str) → is_keyword s ≡ false → keyword s ≡ term
unfolding keyword
keyword-plain s h = ground arith

glued-plain : (c : ℕ) (s : Str) → (c == b'-') ≡ false → glued c s ≡ false
glued-plain c [] h = refl
glued-plain c (d ∷ s) h = ground arith

or_false : (a b : Bool) → (a || b) ≡ false → (a ≡ false) × (b ≡ false)
or_false true b h = (h, ground arith)
or_false false b h = (refl, h)

-- What a text that needs no quotes is like.
needs_quotes-none :
    (s : Str) (b : Bool)
    → needs_quotes s b ≡ false
    → (s =s [] ≡ false)
      × ((has separates s ≡ false) × ((first_is b'-' s ≡ false) × (is_keyword s ≡ false)))
unfolding needs_quotes
needs_quotes-none s b h =
    let first = s =s [] || has separates s in
    let words = first || first_is b'-' s in
    let named = or_false (words || is_keyword s) (b && is_number (parse_int s)) h in
    let keyed = or_false words (is_keyword s) named.0 in
    let minus = or_false first (first_is b'-' s) keyed.0 in
    let empty = or_false (s =s []) (has separates s) minus.0 in
    (empty.0, (empty.1, (minus.1, keyed.1)))

ends_term-head :
    (c : ℕ)
    → ends_term c ≡ false
    → (is_space c ≡ false) × (((c == b'(') ≡ false) × ((c == b')') ≡ false))
ends_term-head c h =
    let close = or_false (is_space c || c == b'(') (c == b')') h in
    let before = or_false (is_space c) (c == b'(') close.0 in (before.0, (before.1, close.1))

lex-plain : (s : Str) (b : Bool) → has (λ c. c == 34) s ≡ false → needs_quotes s b ≡ false → Whole s
unfolding has first_is ◌=s◌
lex-plain [] b h k = absurd (ground (arith, (needs_quotes-none [] b k).0))
lex-plain (c ∷ s) b h k =
    let facts = needs_quotes-none (c ∷ s) b k in
    let ends = ends_term-separates (c ∷ s) facts.1.0 in
    let head = ends_term-head c (or_false (ends_term c) _ ends).0 in
    lex-one c s head.0 head.1.0 head.1.1 (glued-plain c s facts.1.1.0)
      (scan_term-plain (c ∷ s) 0 h ends ∙ ap (ended (c ∷ s) []) (omega arith))
      (keyword-plain (c ∷ s) facts.1.1.1)

take-append : (s t : Str) → take (length s) (s ++ t) ≡ s
take-append [] t = refl
take-append (c ∷ s) t = ap (λ r. c ∷ r) (take-append s t)

last_is-append : (c : ℕ) (s : Str) (d : ℕ) → last_is c (s ++ (d ∷ [])) ≡ (d == c)
unfolding last_is
last_is-append c [] d = refl
last_is-append c (a ∷ []) d = refl
last_is-append c (a ∷ b ∷ s) d = last_is-append c (b ∷ s) d

is_quoted-quoted_text : (s : Str) → is_quoted (quoted_text s) ≡ true
unfolding is_quoted first_is last_is
is_quoted-quoted_text s =
    ground (arith, length-append {0} s (34 ∷ []), last_is-append 34 (34 ∷ s) 34)

inner-quoted_text : (s : Str) → inner (quoted_text s) ≡ s
unfolding inner
inner-quoted_text s =
    ap (λ n. take n (s ++ (34 ∷ []))) (omega (arith, length-append {0} s (34 ∷ [])))
    ∙ take-append s (34 ∷ [])

is_quoted-plain : (s : Str) → has (λ c. c == 34) s ≡ false → is_quoted s ≡ false
unfolding is_quoted first_is has
is_quoted-plain [] h = refl
is_quoted-plain (c ∷ s) h = ground arith

unquoted-quote_if_needed :
    (s : Str) (b : Bool) → has (λ c. c == 34) s ≡ false → unquoted (quote_if_needed s b) ≡ s
unfolding quote_if_needed
unquoted-quote_if_needed s b h = by_need (needs_quotes s b)
  where
    by_need : (n : Bool) → unquoted (if n then quoted_text s else s) ≡ s
    by_need true = rw (is_quoted-quoted_text s) (inner-quoted_text s)
    by_need false = rw (is_quoted-plain s h) refl

-- A value without a double quote, printed, lexes back as one term, which stands for that value.
pub lex-quote_if_needed :
    (s : Str) (b : Bool)
    → has (λ c. c == 34) s ≡ false
    → Whole (quote_if_needed s b) × (unquoted (quote_if_needed s b) ≡ s)
unfolding quote_if_needed
lex-quote_if_needed s b h = (by_need (needs_quotes s b) refl, unquoted-quote_if_needed s b h)
  where
    by_need : (n : Bool) → needs_quotes s b ≡ n → Whole (if n then quoted_text s else s)
    by_need true e = lex-quoted s h
    by_need false e = lex-plain s b h e
