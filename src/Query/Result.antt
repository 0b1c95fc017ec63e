-- ===== src/Query/Result.antt =====
-- internal/query/errors.go: an error is its code, the bytes it points at and the field it names. The
-- message and the change of the offsets to UTF-16 units are left out.
pub mod Owner
use holodex.Prelude.{ℕ, Str, [], Bool, true, false}
use holodex.Query.Tree.{Cond, Node, conds, cond_owner_only}
use holodex.Prelude.{List, ◌∷◌, if◌then◌else◌}

pub data Code : Type 0 where
  empty too_long too_deep too_many syntax unknown_field bad_value bad_range unknown_name ambiguous
        owner_only :
      Code

pub record QueryError : Type 0 where
  pub code : Code
  pub pos : ℕ
  pub stop : ℕ
  pub field : Str

-- `stuck` is a run out of fuel, which the code does not have.
pub data Result (A : Type 0) : Type 0 where
  ok : A → Result A
  err : QueryError → Result A
  stuck : Result A

infixl 5 ◌>>=◌
abbrev pub ◌>>=◌ : {A B : Type 0} → Result A → (A → Result B) → Result B
ok a >>= f = f a
err e >>= f = err e
stuck >>= f = stuck

-- newError
unfoldable pub fail : {A : Type 0} → Code → ℕ → ℕ → Result A
fail c i j = err (record { code = c; pos = i; stop = j; field = [] })

-- newError with its Field set
unfoldable pub fail_on : {A : Type 0} → Str → Code → ℕ → ℕ → Result A
fail_on f c i j = err (record { code = c; pos = i; stop = j; field = f })

unfoldable pub first_owner_only : List Cond → Result (Unit {0})
unfolding fail
first_owner_only [] = ok tt
first_owner_only (c ∷ cs) =
    let rest = first_owner_only cs in
    if cond_owner_only c then fail owner_only c.pos c.stop else rest

-- Query.CheckOwner
unfoldable pub check_owner : Bool → Node → Result (Unit {0})
unfolding first_owner_only
check_owner true n = ok tt
check_owner false n = first_owner_only (conds n)
