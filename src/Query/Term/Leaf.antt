-- ===== src/Query/Term/Leaf.antt =====
-- A term is one condition or one word, or an error.
use holodex.Go.Strconv.{parse_int}
use holodex.Prelude.{
  ℕ, [], length, ◌+◌, ◌=s◌, ◌||◌, Str, Bool, true, false, Option, none, some, if◌then◌else◌,
}
use holodex.Go.Unicode.{Unicode}
use holodex.Query.Tree.{
  Fields, FieldSpec, Node, cond, word, Cond, Kind, Op, unmapped, text, list, date, number, gone,
  is_date_field, field_year, field_duration, field_plays, field_resolution, field_watched,
  field_matched, matched_any, field_released, watched_yes, watched_no, is_builtin,
}
use holodex.Query.Result.{syntax, bad_value, Code, Result, ok, err, stuck, fail, fail_on}
use holodex.Query.Lexer.{Token}
use holodex.Query.Values.{Comparison, parse_comparison, parse_year, parse_duration, parse_number}
use holodex.Query.Dates.{parse_date_cond}
use holodex.Query.Term.{
  id_of, fresh_cond, spec_owner, with_bucket, mapped_cond, term_of, with_comparison, with_date,
  number_cond, date_cond, builtin_cond, value_cond, with_value, field_cond, word_of, term_node,
  split_field, clean, unquoted, parse_resolution_bucket,
}

abbrev pub IsLeaf : Node → Type 0
IsLeaf (cond c) = Unit
IsLeaf (word w) = Unit
IsLeaf _ = ⊥

abbrev pub Leaves : Result Node → Type 0
Leaves (ok n) = IsLeaf n
Leaves (err e) = Unit
Leaves stuck = ⊥

-- What reading a term returns.
pub record IsTerm (r : Result Node) : Type 0 where
  pub leaves : Leaves r

IsTerm-if : (b : Bool) (x y : Result Node) → IsTerm x → IsTerm y → IsTerm (if b then x else y)
IsTerm-if true x y h k = h
IsTerm-if false x y h k = k

IsTerm-ok : (c : Cond) → IsTerm (ok (cond c))
IsTerm-ok c = record { leaves = tt }

IsTerm-fail : (c : Code) (i j : ℕ) → IsTerm (fail c i j)
unfolding fail
IsTerm-fail c i j = record { leaves = tt }

IsTerm-fail_on : (f : Str) (c : Code) (i j : ℕ) → IsTerm (fail_on f c i j)
unfolding fail_on
IsTerm-fail_on f c i j = record { leaves = tt }

abbrev Reads : Result Cond → Type 0
Reads stuck = ⊥
Reads _ = Unit

record IsRead (r : Result Cond) : Type 0 where
  reads : Reads r

IsRead-if : (b : Bool) (x y : Result Cond) → IsRead x → IsRead y → IsRead (if b then x else y)
IsRead-if true x y h k = h
IsRead-if false x y h k = k

IsRead-ok : (c : Cond) → IsRead (ok c)
IsRead-ok c = record { reads = tt }

IsRead-fail_on : (f : Str) (c : Code) (i j : ℕ) → IsRead (fail_on f c i j)
unfolding fail_on
IsRead-fail_on f c i j = record { reads = tt }

module _ (u : Unicode) where
  with_comparison-IsTerm :
      (c : Cond) (v : Str) (k : Option Comparison) → IsTerm (with_comparison u c v k)
  with_comparison-IsTerm c v none = IsTerm-fail_on _ _ _ _
  with_comparison-IsTerm c v (some k) = IsTerm-ok _

  with_date-IsTerm : (c : Cond) (v : Str) (k : Option (Op × Str)) → IsTerm (with_date u c v k)
  with_date-IsTerm c v none = IsTerm-fail_on _ _ _ _
  with_date-IsTerm c v (some (o, w)) = IsTerm-ok _

  number_cond-IsTerm : (num : Str → Option ℕ) (c : Cond) (v : Str) → IsTerm (number_cond u num c v)
  number_cond-IsTerm num c v =
      IsTerm-if c.quoted _ _ (IsTerm-fail_on _ _ _ _)
        (with_comparison-IsTerm c v (parse_comparison num v))

  date_cond-IsTerm : (c : Cond) (v : Str) → IsTerm (date_cond u c v)
  date_cond-IsTerm c v =
      IsTerm-if c.quoted _ _ (IsTerm-fail_on _ _ _ _) (with_date-IsTerm c v (parse_date_cond v))

  bucket-IsTerm : (c : Cond) (b : Option Str) → IsTerm (with_bucket u c b)
  bucket-IsTerm c none = IsTerm-fail_on _ _ _ _
  bucket-IsTerm c (some b) = IsTerm-ok _

  builtin_cond-IsTerm : (c : Cond) (v : Str) → IsTerm (builtin_cond u c v)
  builtin_cond-IsTerm c v =
      IsTerm-if (c.field =s field_year) _ _ (number_cond-IsTerm parse_year c v) (
        IsTerm-if (c.field =s field_duration) _ _ (number_cond-IsTerm parse_duration c v) (
          IsTerm-if (c.field =s field_plays) _ _ (number_cond-IsTerm parse_number c v) (
            IsTerm-if (is_date_field c.field) _ _ (date_cond-IsTerm c v) (
              IsTerm-if (c.field =s field_resolution) _ _
                (bucket-IsTerm c (parse_resolution_bucket u v))
                (IsTerm-if (c.field =s field_watched) _ _
                  (IsTerm-if (u.to_lower v =s watched_yes || u.to_lower v =s watched_no) _ _
                    (IsTerm-ok (record c { value = u.to_lower v }))
                    (IsTerm-fail_on c.field bad_value (c.pos + length c.field + 1) c.stop))
                  (IsTerm-if (c.field =s field_matched) _ _
                    (IsTerm-ok
                      (record c { value = if u.equal_fold v matched_any then matched_any else v }))
                    (IsTerm-ok (record c { value = v; id = id_of u c.quoted (parse_int v) }))))))))

  value_cond-IsTerm : (k : Kind) (c : Cond) (v : Str) → IsTerm (value_cond u k c v)
  value_cond-IsTerm text c v = IsTerm-ok _
  value_cond-IsTerm list c v = IsTerm-ok _
  value_cond-IsTerm gone c v = IsTerm-ok _
  value_cond-IsTerm number c v = number_cond-IsTerm parse_number c v
  value_cond-IsTerm date c v = date_cond-IsTerm c v
  value_cond-IsTerm unmapped c v = builtin_cond-IsTerm c v

  word_of-IsTerm : (t : Token) (w : Str) → IsTerm (word_of u t w)
  word_of-IsTerm t w =
      IsTerm-if (w =s []) _ _ (IsTerm-fail syntax t.pos t.stop) (record { leaves = tt })

  with_value-IsTerm : (value : Str) (r : Result Cond) → IsRead r → IsTerm (with_value u value r)
  with_value-IsTerm value (ok c) h =
      IsTerm-if _ _ _ (IsTerm-fail_on _ _ _ _) (value_cond-IsTerm c.kind c _)
  with_value-IsTerm value (err e) h = record { leaves = tt }
  with_value-IsTerm value stuck h = absurd h.reads

  field_cond-IsRead :
      (t : Token) (field value : Str) (spec : Option FieldSpec) (stored : Bool)
      → IsRead (field_cond u t field value spec stored)
  field_cond-IsRead t field value spec stored =
      IsRead-if (field =s field_released) _ _
        (IsRead-ok (fresh_cond u t field value unmapped [] (spec_owner u spec)))
        (IsRead-if (is_builtin field) _ _ (IsRead-ok (fresh_cond u t field value unmapped [] false))
          (by_spec spec))
    where
      by_spec : (o : Option FieldSpec) → IsRead (mapped_cond u t field value o stored)
      by_spec none = IsRead-if stored _ _ (IsRead-ok _) (IsRead-fail_on _ _ _ _)
      by_spec (some s) = IsRead-ok _

  -- A term that is read is one condition or one word, and reading it never gets stuck.
  pub term_node-IsTerm :
      (fields : Fields) (stored : Bool) (t : Token) → IsTerm (term_node u fields stored t)
  unfolding term_node
  term_node-IsTerm fields stored t = split (split_field u t.text)
    where
      split : (o : Option (Str × Str)) → IsTerm (term_of u fields stored t o)
      split none = word_of-IsTerm t (clean u (unquoted t.text))
      split (some (field, value)) =
          with_value-IsTerm value (field_cond u t field value (fields field) stored)
            (field_cond-IsRead t field value (fields field) stored)
