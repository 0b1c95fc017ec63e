-- ===== src/Query/Tests.antt =====
-- Queries read, tested and printed.
use holodex.Prelude.{ℕ, Str, codes, ◌≡◌, refl, ◌=s◌, false, none, []}
use holodex.Go.Unicode.{ascii}
use holodex.Query.Tree.{Fields, Node, any, all, not, cond, word, nil, cons, owner_only, unmapped}
use holodex.Query.Result.{Result, ok}
use holodex.Query.Parser.{parse}
use holodex.Query.Parser.Held.{Held, parse-Held}
use holodex.Query.Lexer.{lex}
use holodex.Query.Lexer.Spans.{Lexed, lex-Spans}
use holodex.Query.Result.{check_owner}
use holodex.Query.Result.Owner.{Gated, check_owner-Gated}
use holodex.Query.Term.{unquoted}
use holodex.Query.Print.{quote_if_needed}
use holodex.Query.Print.Words.{Whole, lex-quote_if_needed}
use holodex.Query.Tree.{Cond, eq}

abbrev no_fields : Fields
no_fields f = none

abbrev read : Str → Result Node
read = parse ascii no_fields false

abbrev plain_word : Str → ℕ → ℕ → Node
plain_word s i j = word (record { text = s; pos = i; stop = j })

parse_words :
    read (codes "a OR (b -c)")
    ≡ ok (
        any (
          cons (plain_word (codes "a") 0 1) (
            cons
              (all
                (cons (plain_word (codes "b") 6 7) (cons (not (plain_word (codes "c") 9 10)) nil)))
              nil)))
unfolding parse ◌=s◌ holodex.Go.Unicode.trim_left holodex.Go.Unicode.trim_right
    holodex.Query.Term.term_node
parse_words = refl

abbrev watched_cond : Cond
watched_cond = record {
  field = codes "watched";
  op = eq;
  value = codes "yes";
  quoted = false;
  id = 0;
  lo = 0;
  hi = 0;
  pos = 2;
  stop = 13;
  kind = unmapped;
  field_label = [];
  owner = false;
}

abbrev watched_tree : Node
watched_tree = all (cons (plain_word (codes "a") 0 1) (cons (cond watched_cond) nil))

parse-Held_example : Held (read (codes "a OR (b -c)"))
parse-Held_example = parse-Held ascii no_fields false (codes "a OR (b -c)")

lex-Spans_example : Lexed (codes "a -(tag:\"b c\")") (lex (codes "a -(tag:\"b c\")"))
lex-Spans_example = lex-Spans (codes "a -(tag:\"b c\")")

check_owner-Gated_example :
    Gated watched_tree (owner_only watched_tree) (check_owner false watched_tree)
check_owner-Gated_example = check_owner-Gated watched_tree

lex-quote_if_needed_example :
    Whole (quote_if_needed (codes "OR") false)
    × (unquoted (quote_if_needed (codes "OR") false) ≡ codes "OR")
unfolding holodex.Go.Strings.has
lex-quote_if_needed_example = lex-quote_if_needed (codes "OR") false refl
