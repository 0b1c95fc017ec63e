-- ===== src/Query/Values.antt =====
-- The number values of internal/query/parse.go: years, mapped numbers, durations, and a comparison
-- or a range of such.
use holodex.Prelude.{ℕ, ◌*◌, Str, codes, ◌=s◌, ◌||◌, Option, none, some, [], ltb, if◌then◌else◌}
use holodex.Go.Strings.{cut, cut_prefix, cut_suffix}
use holodex.Go.Strconv.{parse_int, within}
use holodex.Query.Tree.{Op, eq, lt, le, gt, ge, range}

abbrev pub dots : Str
dots = codes ".."

-- parseYear
unfoldable pub parse_year : Str → Option ℕ
unfolding parse_int within
parse_year s = within 1 9999 (parse_int s)

-- parseNumber
unfoldable pub parse_number : Str → Option ℕ
unfolding parse_int within
parse_number s = within 0 1000000000000 (parse_int s)

abbrev times : ℕ → Option ℕ → Option ℕ
times m none = none
times m (some n) = some (n * m)

abbrev scaled : ℕ → Str → Option ℕ
scaled m s = times m (within 0 1000000 (parse_int s))

-- parseDuration, in seconds
unfoldable pub parse_duration : Str → Option ℕ
unfolding parse_int within cut_suffix
parse_duration s = elim (cut_suffix (codes "s") s) [
  | some n ↦ scaled 1 n
  | none ↦ elim (cut_suffix (codes "m") s) [
    | some n ↦ scaled 60 n
    | none ↦ elim (cut_suffix (codes "h") s) [ some n ↦ scaled 3600 n | none ↦ scaled 60 s ]
  ]
]

-- The operator that a value begins with, and the rest: the first of <=, >=, <, > that fits.
unfoldable pub leading_op : Str → Op × Str
unfolding cut_prefix
leading_op v = elim (cut_prefix (codes "<=") v) [
  | some r ↦ (le, r)
  | none ↦ elim (cut_prefix (codes ">=") v) [
    | some r ↦ (ge, r)
    | none ↦ elim (cut_prefix (codes "<") v) [
      | some r ↦ (lt, r)
      | none ↦ elim (cut_prefix (codes ">") v) [ some r ↦ (gt, r) | none ↦ (eq, v) ]
    ]
  ]
]

-- What parseComparison sets of a condition: its operator and its bounds.
pub record Comparison : Type 0 where
  pub op : Op
  pub lo : ℕ
  pub hi : ℕ

abbrev compare_range : Option ℕ → Option ℕ → Option Comparison
compare_range (some a) (some b) =
    if ltb b a then none else some (record { op = range; lo = a; hi = b })
compare_range _ _ = none

abbrev compare_one : Op → Option ℕ → Option Comparison
compare_one o none = none
compare_one o (some n) = some (record { op = o; lo = n; hi = 0 })

abbrev range_of : (Str → Option ℕ) → Str → Str → Option Comparison
range_of num lo hi = if lo =s [] || hi =s [] then none else compare_range (num lo) (num hi)

-- parseComparison; none is any of its messages
unfoldable pub parse_comparison : (Str → Option ℕ) → Str → Option Comparison
unfolding cut leading_op
parse_comparison num v = elim (cut dots v) [
  | some (lo, hi) ↦ range_of num lo hi
  | none ↦ compare_one (leading_op v).0 (num (leading_op v).1)
]
