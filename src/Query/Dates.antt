-- ===== src/Query/Dates.antt =====
-- internal/query/dates.go: date values, and the clamped calendar arithmetic behind them. A date is
-- a year, a month and a day; the calendar is the proleptic Gregorian one of package time.
use holodex.Prelude.{
  ℕ, ◌%◌, Str, codes, ◌=s◌, Bool, not, ◌&&◌, ◌||◌, Option, none, some, List, [], ◌∷◌, ◌++◌, ◌==◌,
  leb, ltb, length, if◌then◌else◌,
}
use holodex.Go.Strings.{cut, cut_suffix, split}
use holodex.Go.Strconv.{parse_int, within, format_int}
use holodex.Query.Tree.{Op, eq, lt, le, gt, ge, range}
use holodex.Query.Values.{dots, leading_op}

pub record Date : Type 0 where
  pub year : ℕ
  pub month : ℕ
  pub day : ℕ

unfoldable pub is_leap : ℕ → Bool
is_leap y = y % 4 == 0 && (not (y % 100 == 0) || y % 400 == 0)

-- daysIn
unfoldable pub days_in : ℕ → ℕ → ℕ
unfolding is_leap
days_in y m =
    if m == 2
    then (if is_leap y then 29 else 28)
    else if m == 4 || m == 6 || m == 9 || m == 11
    then 30
    else 31

-- absDate: a year, a month or a day, by which of its lengths is 1
pub record AbsDate : Type 0 where
  pub text : Str
  pub start : Date
  pub years : ℕ
  pub months : ℕ
  pub days : ℕ

abbrev pub all_digits_of : ℕ → Str → Option ℕ
all_digits_of n s = if length s == n then within 0 9999 (parse_int s) else none

abbrev year_date : Str → ℕ → Option AbsDate
year_date s y =
    if leb 1 y
    then some (record {
      text = s;
      start = record { year = y; month = 1; day = 1 };
      years = 1;
      months = 0;
      days = 0;
    })
    else none

abbrev month_date : Str → ℕ → ℕ → Option AbsDate
month_date s y m =
    if leb 1 y && leb 1 m && leb m 12
    then some (record {
      text = s;
      start = record { year = y; month = m; day = 1 };
      years = 0;
      months = 1;
      days = 0;
    })
    else none

abbrev day_date : Str → ℕ → ℕ → ℕ → Option AbsDate
day_date s y m d =
    if leb 1 y && leb 1 m && leb m 12 && leb 1 d && leb d (days_in y m)
    then some (record {
      text = s;
      start = record { year = y; month = m; day = d };
      years = 0;
      months = 0;
      days = 1;
    })
    else none

abbrev date_of_parts : Str → List Str → Option AbsDate
date_of_parts s (y ∷ []) = elim (all_digits_of 4 y) [ none ↦ none | some a ↦ year_date s a ]
date_of_parts s (y ∷ m ∷ []) = elim (all_digits_of 4 y) [
  | none ↦ none
  | some a ↦ elim (all_digits_of 2 m) [ none ↦ none | some b ↦ month_date s a b ]
]
date_of_parts s (y ∷ m ∷ d ∷ []) = elim (all_digits_of 4 y) [
  | none ↦ none
  | some a ↦ elim (all_digits_of 2 m) [
    | none ↦ none
    | some b ↦ elim (all_digits_of 2 d) [ none ↦ none | some c ↦ day_date s a b c ]
  ]
]
date_of_parts s _ = none

-- parseAbsDate
unfoldable pub parse_abs_date : Str → Option AbsDate
unfolding split days_in parse_int within
parse_abs_date s = date_of_parts s (split b'-' s)

abbrev try_unit : Str → Str → Option (Option (ℕ × Str)) → Option (Option (ℕ × Str))
try_unit u s later = elim (cut_suffix u s) [
  | none ↦ later
  | some num ↦
      if num =s []
      then later
      else some (elim (within 1 9999 (parse_int num)) [ none ↦ none | some n ↦ some (n, u) ])
]

abbrev flat : Option (Option (ℕ × Str)) → Option (ℕ × Str)
flat none = none
flat (some r) = r

-- parseRelative: the first unit, mo, d, w or y, that the text ends in behind something decides
unfoldable pub parse_relative : Str → Option (ℕ × Str)
unfolding cut_suffix parse_int within
parse_relative s = flat (
    try_unit (codes "mo") s
      (try_unit (codes "d") s (try_unit (codes "w") s (try_unit (codes "y") s none))))

-- start.After
unfoldable pub after : Date → Date → Bool
after a b =
    if a.year == b.year
    then (if a.month == b.month then ltb b.day a.day else ltb b.month a.month)
    else ltb b.year a.year

abbrev pub op_text : Op → Str
op_text lt = codes "<"
op_text le = codes "<="
op_text gt = codes ">"
op_text ge = codes ">="
op_text _ = []

-- The operator and the value that parseDateCond sets; none is any of its messages.
abbrev DateCond : Type 0
DateCond = Op × Str

abbrev range_cond : Option AbsDate → Option AbsDate → Option DateCond
range_cond (some a) (some b) =
    if after a.start b.start then none else some (range, a.text ++ (dots ++ b.text))
range_cond _ _ = none

abbrev relative_cond : Op → ℕ → Str → Option DateCond
relative_cond eq n unit = none
relative_cond le n unit = some (lt, codes "<" ++ (format_int n ++ unit))
relative_cond ge n unit = some (gt, codes ">" ++ (format_int n ++ unit))
relative_cond o n unit = some (o, op_text o ++ (format_int n ++ unit))

abbrev absolute_cond : Op → Option AbsDate → Option DateCond
absolute_cond o none = none
absolute_cond o (some d) = some (o, op_text o ++ d.text)

-- parseDateCond
unfoldable pub parse_date_cond : Str → Option DateCond
unfolding cut leading_op parse_abs_date parse_relative after format_int
parse_date_cond v = elim (cut dots v) [
  | some (lo, hi) ↦
      if lo =s [] || hi =s [] then none else range_cond (parse_abs_date lo) (parse_abs_date hi)
  | none ↦ elim (parse_relative (leading_op v).1) [
    | some (n, unit) ↦ relative_cond (leading_op v).0 n unit
    | none ↦ absolute_cond (leading_op v).0 (parse_abs_date (leading_op v).1)
  ]
]
