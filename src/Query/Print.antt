-- ===== src/Query/Print.antt =====
-- internal/query/print.go: the canonical text of a tree.
pub mod Words
use holodex.Prelude.{
  ℕ, suc, Str, codes, ◌=s◌, Bool, true, false, ◌&&◌, ◌||◌, Option, none, some, List, [], ◌∷◌, ◌++◌,
  ◌==◌, ltb, if◌then◌else◌,
}
use holodex.Go.Strings.{has, first_is}
use holodex.Go.Strconv.{Int64, parse_int, format_int}
use holodex.Query.Tree.{
  Kind, unmapped, text, list, date, number, gone, Op, eq, lt, le, gt, ge, range, Cond, Node, Nodes,
  any, all, not, cond, word, nil, cons, field_year, field_plays, field_duration, field_resolution,
  field_added, field_updated, field_released, field_played, field_watched, field_matched,
}

-- One of " \t\r\n():"
abbrev pub separates : ℕ → Bool
separates c = c == b' ' || c == 9 || c == 13 || c == 10 || c == b'(' || c == b')' || c == b':'

abbrev pub is_keyword : Str → Bool
is_keyword s = s =s codes "OR" || s =s codes "AND" || s =s codes "NOT"

abbrev pub is_number : Option Int64 → Bool
is_number none = false
is_number (some n) = true

unfoldable pub needs_quotes : Str → Bool → Bool
unfolding has first_is parse_int
needs_quotes s entity_name =
    s =s []
    || has separates s
    || first_is b'-' s
    || is_keyword s
    || (entity_name && is_number (parse_int s))

abbrev pub quoted_text : Str → Str
quoted_text s = 34 ∷ (s ++ (34 ∷ []))

-- quoteIfNeeded
unfoldable pub quote_if_needed : Str → Bool → Str
unfolding needs_quotes
quote_if_needed s entity_name = if needs_quotes s entity_name then quoted_text s else s

-- The text that stands for an operator, which OpEq and OpRange do not have.
abbrev op_text : Op → Str
op_text lt = codes "<"
op_text le = codes "<="
op_text gt = codes ">"
op_text ge = codes ">="
op_text eq = []
op_text range = codes ".."

abbrev compared : Op → Str → Str → Str
compared range lo hi = lo ++ (codes ".." ++ hi)
compared o lo hi = op_text o ++ lo

-- comparison
unfoldable pub comparison : Cond → Str → Str
unfolding format_int
comparison c unit = compared c.op (format_int c.lo ++ unit) (format_int c.hi ++ unit)

abbrev entity_value : Cond → Str
unfolding quote_if_needed format_int
entity_value c = if ltb 0 c.id then format_int c.id else quote_if_needed c.value true

abbrev is_plain : Str → Bool
is_plain f =
    f =s field_resolution
    || f =s field_added
    || f =s field_updated
    || f =s field_released
    || f =s field_played
    || f =s field_watched

abbrev builtin_value : Cond → Str
unfolding comparison quote_if_needed
builtin_value c =
    if c.field =s field_year || c.field =s field_plays
    then comparison c []
    else if c.field =s field_duration
    then comparison c (codes "s")
    else if is_plain c.field
    then c.value
    else if c.field =s field_matched
    then quote_if_needed c.value false
    else entity_value c

-- condValue
unfoldable pub cond_value : Cond → Str
unfolding comparison quote_if_needed
cond_value c = elim c.kind [
  | date ↦ c.value
  | number ↦ comparison c []
  | text ↦ quote_if_needed c.value false
  | list ↦ quote_if_needed c.value false
  | gone ↦ quote_if_needed c.value false
  | unmapped ↦ builtin_value c
]

abbrev is_or : Node → Bool
is_or (any ns) = true
is_or _ = false

abbrev is_composite : Node → Bool
is_composite (any ns) = true
is_composite (all ns) = true
is_composite _ = false

abbrev grouped : Bool → Str → Str
grouped true s = b'(' ∷ (s ++ (b')' ∷ []))
grouped false s = s

-- printNode, with its two loops; what stands before an item is there from the second on.
unfoldable mutual
  unfolding cond_value quote_if_needed

  pub print_node : Node → Bool → Str
  print_node (any ns) group = grouped group (print_any ns [])
  print_node (all ns) group = grouped group (print_all ns [])
  print_node (not n) group = b'-' ∷ print_node n (is_composite n)
  print_node (cond c) group = c.field ++ (b':' ∷ cond_value c)
  print_node (word w) group = quote_if_needed w.text false

  print_any : Nodes → Str → Str
  print_any nil sep = []
  print_any (cons n ns) sep = sep ++ (print_node n false ++ print_any ns (codes " OR "))

  print_all : Nodes → Str → Str
  print_all nil sep = []
  print_all (cons n ns) sep = sep ++ (print_node n (is_or n) ++ print_all ns (codes " "))

-- Print, and Query.String
unfoldable pub print : Node → Str
unfolding print_node
print n = print_node n false
