-- ===== src/Query/Term.antt =====
-- `term` of internal/query/parse.go: one term token becomes a word or a condition. Go's Unicode
-- tables and the owner's mapped fields are its parameters.
pub mod Leaf
use holodex.Prelude.{
  ℕ, suc, ◌+◌, ◌-◌, ◌<◌, Str, codes, ◌=s◌, Bool, true, false, not, ◌&&◌, ◌||◌, Option, none, some,
  List, [], ◌∷◌, ◌==◌, leb, length, take, drop, if◌then◌else◌,
}
use holodex.Go.Strings.{cut, without, last_is, first_is}
use holodex.Go.Strconv.{Int64, plus, minus, parse_int}
use holodex.Go.Unicode.{Unicode}
use holodex.Query.Tree.{
  Kind, unmapped, text, list, date, number, gone, is_gone, Op, eq, FieldSpec, Fields, is_builtin,
  is_date_field, Cond, Word, Node, cond, word, field_year, field_duration, field_plays,
  field_resolution, field_watched, field_matched, field_released, watched_yes, watched_no,
  matched_any,
}
use holodex.Query.Result.{
  Code, Result, ok, err, stuck, fail, fail_on, syntax, unknown_field, bad_value, bad_range,
}
use holodex.Query.Lexer.{Token}
use holodex.Query.Values.{
  dots, Comparison, parse_year, parse_number, parse_duration, parse_comparison,
}
use holodex.Query.Dates.{parse_date_cond}

-- len(s) >= 2, with a quote at both ends
unfoldable pub is_quoted : Str → Bool
unfolding first_is last_is
is_quoted s = leb 2 (length s) && (first_is 34 s && last_is 34 s)

-- s[1 : len(s)-1]
unfoldable pub inner : Str → Str
inner s = take (length s - 2) (drop 1 s)

abbrev pub unquoted : Str → Str
unquoted s = if is_quoted s then inner s else s

module _ (u : Unicode) where
  -- TrimSpace(ReplaceAll(s, `"`, ""))
  abbrev clean : Str → Str
  clean s = u.trim_space (without 34 s)

  -- splitField
  abbrev field_of : Option (Str × Str) → Option (Str × Str)
  field_of none = none
  field_of (some (before, behind)) =
      if not (before =s []) && u.is_identifier before
      then some (u.to_lower before, behind)
      else none

  unfoldable pub split_field : Str → Option (Str × Str)
  unfolding cut
  split_field s = field_of (cut (codes ":") s)

  -- TrimRight(s, "+")
  unfoldable pub trim_plus : Str → Str
  trim_plus [] = []
  trim_plus (c ∷ s) = let rest = trim_plus s in if rest =s [] && c == b'+' then [] else c ∷ rest

  -- metadata.ParseResolutionBucket
  unfoldable pub parse_resolution_bucket : Str → Option Str
  unfolding trim_plus
  parse_resolution_bucket s =
      let t = u.to_upper (trim_plus (u.trim_space s)) in
      if t =s codes "SD" || t =s codes "HD" || t =s codes "FHD" || t =s codes "4K"
      then some t
      else none

  abbrev word_of : Token → Str → Result Node
  word_of t s =
      if s =s []
      then fail syntax t.pos t.stop
      else ok (word (record { text = s; pos = t.pos; stop = t.stop }))

  -- BadRange where the value holds `..`
  abbrev value_code : Str → Code
  value_code v = elim (cut dots v) [ none ↦ bad_value | some _ ↦ bad_range ]

  -- `bad`: an error on the value
  abbrev bad : {A : Type 0} → Cond → Code → Result A
  bad c k = fail_on c.field k (c.pos + length c.field + 1) c.stop

  abbrev with_comparison : Cond → Str → Option Comparison → Result Node
  with_comparison c v none = bad c (value_code v)
  with_comparison c v (some k) = ok (cond (record c { op = k.op; lo = k.lo; hi = k.hi }))

  abbrev with_date : Cond → Str → Option (Op × Str) → Result Node
  with_date c v none = bad c (value_code v)
  with_date c v (some (o, w)) = ok (cond (record c { op = o; value = w }))

  abbrev number_cond : (Str → Option ℕ) → Cond → Str → Result Node
  number_cond num c v =
      if c.quoted then bad c bad_value else with_comparison c v (parse_comparison num v)

  abbrev date_cond : Cond → Str → Result Node
  date_cond c v = if c.quoted then bad c bad_value else with_date c v (parse_date_cond v)

  -- An entity's value: an unquoted positive number is an id.
  abbrev id_of : Bool → Option Int64 → ℕ
  id_of true n = 0
  id_of false (some (plus n)) = n
  id_of false _ = 0

  abbrev with_bucket : Cond → Option Str → Result Node
  with_bucket c none = bad c bad_value
  with_bucket c (some b) = ok (cond (record c { value = b }))

  abbrev builtin_cond : Cond → Str → Result Node
  builtin_cond c v =
      if c.field =s field_year
      then number_cond parse_year c v
      else if c.field =s field_duration
      then number_cond parse_duration c v
      else if c.field =s field_plays
      then number_cond parse_number c v
      else if is_date_field c.field
      then date_cond c v
      else if c.field =s field_resolution
      then with_bucket c (parse_resolution_bucket v)
      else if c.field =s field_watched
      then (let w = u.to_lower v in
          if w =s watched_yes || w =s watched_no
          then ok (cond (record c { value = w }))
          else bad c bad_value)
      else if c.field =s field_matched
      then ok (cond (record c { value = if u.equal_fold v matched_any then matched_any else v }))
      else ok (cond (record c { value = v; id = id_of c.quoted (parse_int v) }))

  -- The switch over the kind of the condition, then over its field.
  abbrev value_cond : Kind → Cond → Str → Result Node
  value_cond text c v = ok (cond (record c { value = v }))
  value_cond list c v = ok (cond (record c { value = v }))
  value_cond gone c v = ok (cond (record c { value = v }))
  value_cond number c v = number_cond parse_number c v
  value_cond date c v = date_cond c v
  value_cond unmapped c v = builtin_cond c v

  abbrev checked_cond : Cond → Str → Result Node
  checked_cond c v = if v =s [] then bad c bad_value else value_cond c.kind c v

  -- The condition before its value is read.
  abbrev fresh_cond : Token → Str → Str → Kind → Str → Bool → Cond
  fresh_cond t field value k label owner = record {
    field = field;
    op = eq;
    value = [];
    quoted = is_quoted value;
    id = 0;
    lo = 0;
    hi = 0;
    pos = t.pos;
    stop = t.stop;
    kind = k;
    field_label = label;
    owner = owner;
  }

  abbrev spec_owner : Option FieldSpec → Bool
  spec_owner none = false
  spec_owner (some s) = s.owner_only

  abbrev mapped_cond : Token → Str → Str → Option FieldSpec → Bool → Result Cond
  mapped_cond t field value (some s) stored =
      ok (fresh_cond t field value s.kind s.label s.owner_only)
  mapped_cond t field value none stored =
      if stored
      then ok (fresh_cond t field value gone [] false)
      else fail_on field unknown_field t.pos (t.pos + length field)

  abbrev field_cond : Token → Str → Str → Option FieldSpec → Bool → Result Cond
  field_cond t field value spec stored =
      if field =s field_released
      then ok (fresh_cond t field value unmapped [] (spec_owner spec))
      else if is_builtin field
      then ok (fresh_cond t field value unmapped [] false)
      else mapped_cond t field value spec stored

  abbrev with_value : Str → Result Cond → Result Node
  with_value value (ok c) = checked_cond c (clean (unquoted value))
  with_value value (err e) = err e
  with_value value stuck = stuck

  abbrev term_of : Fields → Bool → Token → Option (Str × Str) → Result Node
  term_of fields stored t none = word_of t (clean (unquoted t.text))
  term_of fields stored t (some (field, value)) =
      with_value value (field_cond t field value (fields field) stored)

  -- term
  unfoldable pub term_node : Fields → Bool → Token → Result Node
  unfolding split_field is_quoted inner without parse_resolution_bucket is_builtin is_date_field
      fail fail_on
  term_node fields stored t = term_of fields stored t (split_field t.text)
