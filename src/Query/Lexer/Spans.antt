-- ===== src/Query/Lexer/Spans.antt =====
-- The lexer ends, and its tokens are pieces of the source at the positions they give.
use holodex.Prelude.{
  ℕ, zero, suc, ◌+◌, ◌≤◌, ◌≡◌, refl, sym, ap, subst, ◌∙◌, arith, Str, Bool, true, false, Option,
  none, some, List, [], ◌∷◌, ◌++◌, length, length-append, append-nil, append_assoc, All, ◌==◌,
  if◌then◌else◌,
}
use holodex.Query.Result.{Result, ok, err, stuck, fail, syntax}
use holodex.Query.Lexer.{
  Token, TokKind, Scan, ended, unclosed, prepend, opens, closes, ends_term, scan_term, keyword,
  is_space, glued, add_token, lex_from, punct, lex, lparen, rparen, minus,
}

-- The token's text is what the source holds from its `pos` up to its `stop`.
pub record Spans (src : Str) (t : Token) : Type 0 where
  pub before : Str
  pub after : Str
  pub source : src ≡ before ++ (t.text ++ after)
  pub at_pos : length before ≡ t.pos
  pub at_stop : t.stop ≡ t.pos + length t.text

-- What a scan from position i of the text s returns.
abbrev Scanned : Str → ℕ → Scan → Type 0
Scanned s i (ended text rest j) = (s ≡ text ++ rest) × (j ≡ i + length text)
Scanned s i (unclosed q) = Unit

Scanned-prepend :
    (c : ℕ) (s : Str) (i : ℕ) (r : Scan) → Scanned s (i + 1) r → Scanned (c ∷ s) i (prepend c r)
Scanned-prepend c s i (ended text rest j) (h, k) = (ap (λ t. c ∷ t) h, omega (arith, k))
Scanned-prepend c s i (unclosed q) h = tt

Scanned-if :
    (s : Str) (i : ℕ) (b : Bool) (x y : Scan)
    → Scanned s i x
    → Scanned s i y
    → Scanned s i (if b then x else y)
Scanned-if s i true x y h k = h
Scanned-if s i false x y h k = k

scan_term-Scanned : (o : Option ℕ) (s : Str) (i : ℕ) → Scanned s i (scan_term o s i)
unfolding scan_term
scan_term-Scanned none [] i = (refl, omega arith)
scan_term-Scanned (some q) [] i = tt
scan_term-Scanned none (c ∷ s) i =
    Scanned-if (c ∷ s) i (ends_term c) (ended [] (c ∷ s) i) _ (refl, omega arith)
      (Scanned-prepend c s i _ (scan_term-Scanned (opens c i) s (i + 1)))
scan_term-Scanned (some q) (c ∷ s) i =
    Scanned-prepend c s i _ (scan_term-Scanned (closes c q) s (i + 1))

-- A scan that starts on a byte of a term takes it.
abbrev Taken : ℕ → Scan → Type 0
Taken n (ended text rest j) = length rest ≤ n
Taken n (unclosed q) = Unit

Taken-prepend :
    (c : ℕ) (s : Str) (i : ℕ) (r : Scan) → Scanned s (i + 1) r → Taken (length s) (prepend c r)
Taken-prepend c s i (ended text rest j) (h, k) =
    omega (arith, ap (length {A = ℕ}) h, length-append {0} text rest)
Taken-prepend c s i (unclosed q) h = tt

scan_term-Taken :
    (c : ℕ) (s : Str) (i : ℕ) → ends_term c ≡ false → Taken (length s) (scan_term none (c ∷ s) i)
unfolding scan_term
scan_term-Taken c s i h = by_end (ends_term c) h
  where
    by_end :
        (b : Bool)
        → b ≡ false
        → Taken
            (length s)
            (if b then ended [] (c ∷ s) i else prepend c (scan_term (opens c i) s (i + 1)))
    by_end true e = cc
    by_end false e = Taken-prepend c s i _ (scan_term-Scanned (opens c i) s (i + 1))

-- What lexing returns.
abbrev pub Lexed : Str → Result (List Token) → Type 0
Lexed src (ok ts) = All (Spans src) ts
Lexed src (err e) = Unit
Lexed src stuck = ⊥

Lexed-add :
    (src : Str) (t : Token) (r : Result (List Token))
    → Spans src t
    → Lexed src r
    → Lexed src (add_token t r)
Lexed-add src t (ok ts) h k = (h, k)
Lexed-add src t (err e) h k = tt
Lexed-add src t stuck h k = k

Lexed-elim :
    (src : Str) (b : Bool) (x y : Result (List Token))
    → (b ≡ true → Lexed src x)
    → (b ≡ false → Lexed src y)
    → Lexed src (elim b [ true ↦ x | false ↦ y ])
Lexed-elim src true x y h k = h refl
Lexed-elim src false x y h k = k refl

module _ (src : Str) where
  -- The source is what is lexed before position i, and the rest.
  record At (s : Str) (i fuel : ℕ) : Type 0 where
    before : Str
    source : src ≡ before ++ s
    here : length before ≡ i
    fueled : length s ≤ fuel

  At-skip :
      (text rest : Str) (i j fuel : ℕ)
      → At (text ++ rest) i (suc fuel)
      → j ≡ i + length text
      → length rest ≤ fuel
      → At rest j fuel
  At-skip text rest i j fuel a e h = record {
    before = a.before ++ text;
    source = a.source ∙ sym (append_assoc a.before text rest);
    here = omega (arith, length-append a.before text, a.here, e);
    fueled = h;
  }

  At-Spans :
      (k : TokKind) (text rest : Str) (i j fuel : ℕ)
      → At (text ++ rest) i fuel
      → j ≡ i + length text
      → Spans src (record { kind = k; text = text; pos = i; stop = j })
  At-Spans k text rest i j fuel a e = record {
    before = a.before;
    after = rest;
    source = a.source;
    at_pos = a.here;
    at_stop = e;
  }

  abbrev Lexes : ℕ → Type 0
  Lexes fuel = (s : Str) (i : ℕ) → At s i fuel → Lexed src (lex_from fuel s i (length src))

  lex_from-suc :
      (fuel : ℕ)
      → Lexes fuel
      → (c : ℕ) (s : Str) (i : ℕ) → At (c ∷ s) i (suc fuel)
      → Lexed src (lex_from (suc fuel) (c ∷ s) i (length src))
  unfolding lex_from fail
  lex_from-suc fuel ih c s i a =
      Lexed-elim src (is_space c) _ _ (λ e. rest)
        (λ e1.
          Lexed-elim src (c == b'(') _ _ (λ e. byte lparen)
            (λ e2.
              Lexed-elim src (c == b')') _ _ (λ e. byte rparen)
                (λ e3.
                  Lexed-elim src (glued c s) _ _ (λ e. byte minus)
                    (λ e4.
                      by_scan (scan_term none (c ∷ s) i) (scan_term-Scanned none (c ∷ s) i)
                        (scan_term-Taken c s i (ground arith))))))
    where
      next : At s (i + 1) fuel
      next = At-skip (c ∷ []) s i (i + 1) fuel a (omega arith) (omega (arith, a.fueled))

      rest : Lexed src (lex_from fuel s (i + 1) (length src))
      rest = ih s (i + 1) next

      byte :
          (k : TokKind) → Lexed src (add_token (punct k c i) (lex_from fuel s (i + 1) (length src)))
      byte k = Lexed-add src _ _ (At-Spans k (c ∷ []) s i (i + 1) (suc fuel) a (omega arith)) rest

      by_scan :
          (r : Scan)
          → Scanned (c ∷ s) i r
          → Taken (length s) r
          → Lexed src (elim r [
            | unclosed q ↦ fail syntax q (length src)
            | ended text more j ↦
                add_token
                  (record { kind = keyword text; text = text; pos = i; stop = j })
                  (lex_from fuel more j (length src))
          ])
      by_scan (unclosed q) h t = tt
      by_scan (ended text more j) (h, e) t =
          let b = subst (λ (x : Str). At x i (suc fuel)) h a in
          Lexed-add src _ _ (At-Spans (keyword text) text more i j (suc fuel) b e)
            (ih more j (At-skip text more i j fuel b e (omega (arith, t, a.fueled))))

  lex_from-Lexed :
      (fuel : ℕ) (s : Str) (i : ℕ) → At s i fuel → Lexed src (lex_from fuel s i (length src))
  unfolding lex_from
  lex_from-Lexed fuel [] i a = (
    record {
      before = src;
      after = [];
      source = sym (append-nil src);
      at_pos = refl;
      at_stop = omega arith;
    },
    tt,
  )
  lex_from-Lexed zero (c ∷ s) i a = omega (arith, a.fueled)
  lex_from-Lexed (suc fuel) (c ∷ s) i a = lex_from-suc fuel (lex_from-Lexed fuel) c s i a

-- Lexing ends, and each token's text stands in the source between the token's positions.
pub lex-Spans : (src : Str) → Lexed src (lex src)
unfolding lex
lex-Spans src =
    lex_from-Lexed src (length src) src 0
      (record { before = []; source = refl; here = refl; fueled = omega arith })
