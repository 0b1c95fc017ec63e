-- ===== src/Prelude/Text.antt =====
-- Text as the list of its bytes, with the comparisons of package strings that the program uses.
use Prim.Native.Nat.{ℕ}
use Prim.Native.Char.{code}
use Prim.Native.String.{String}
use mathlib.Core.Path.{◌≡◌, refl, subst, ap}
use mathlib.Core.Logic.{◌↔◌, inl, inr}
use mathlib.Core.Bool.{Bool, true, false, ◌&&◌}
use mathlib.Core.List.{List, [], ◌∷◌, ◌++◌}
use native.Mathlib.Omega.{arith}
use holodex.Prelude.Tests.{◌==◌, Bool-cases}
use holodex.Prelude.Lists.{length, length-append}

-- A Go string: its bytes.
abbrev pub Str : Type 0
Str = List ℕ

-- The bytes of an ASCII literal.
abbrev pub codes : String → List ℕ
codes String.[] = []
codes (String.◌∷◌ c s) = code c ∷ codes s

-- a == b on strings
infix 50 ◌=s◌
unfoldable pub ◌=s◌ : Str → Str → Bool
[] =s [] = true
[] =s (d ∷ t) = false
(c ∷ s) =s [] = false
(c ∷ s) =s (d ∷ t) = (c == d) && (s =s t)

pub =s_refl : (s : Str) → (s =s s) ≡ true
unfolding ◌=s◌
=s_refl [] = refl
=s_refl (c ∷ s) = ground (arith, =s_refl s)

pub eq_of_=s : (s t : Str) → (s =s t) ≡ true → s ≡ t
unfolding ◌=s◌
eq_of_=s [] [] h = refl
eq_of_=s [] (d ∷ t) h = cc
eq_of_=s (c ∷ s) [] h = cc
eq_of_=s (c ∷ s) (d ∷ t) h = ground (arith, eq_of_=s s t)

-- `==` on strings decides equality.
pub =s_iff : (s t : Str) → ((s =s t) ≡ true) ↔ (s ≡ t)
=s_iff s t = (eq_of_=s s t, λ e. subst (λ (u : Str). (s =s u) ≡ true) e (=s_refl s))

-- A text is not its own proper extension.
pub append_ne_left : (s : Str) (c : ℕ) (t : Str) → ((s ++ c ∷ t) =s s) ≡ false
unfolding ◌=s◌
append_ne_left [] c t = refl
append_ne_left (a ∷ s) c t = ground (arith, append_ne_left s c t)

pub append_ne_right : (s : Str) (c : ℕ) (t : Str) → (s =s (s ++ c ∷ t)) ≡ false
unfolding ◌=s◌
append_ne_right [] c t = refl
append_ne_right (a ∷ s) c t = ground (arith, append_ne_right s c t)

pub =s-append : (s a b : Str) → ((s ++ a) =s (s ++ b)) ≡ (a =s b)
unfolding ◌=s◌
=s-append [] a b = refl
=s-append (c ∷ s) a b = ground (arith, =s-append s a b)

pub longer_ne_suffix : (c : ℕ) (p suffix : Str) → ((c ∷ (p ++ suffix)) =s suffix) ≡ false
longer_ne_suffix c p suffix = elim (Bool-cases ((c ∷ (p ++ suffix)) =s suffix)) [
  | inl e ↦ absurd (omega (arith, ap (length {A = ℕ}) (eq_of_=s _ _ e), length-append {0} p suffix))
  | inr e ↦ e
]
