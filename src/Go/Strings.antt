-- ===== src/Go/Strings.antt =====
-- Package strings: Cut, HasPrefix, HasSuffix, CutSuffix and ReplaceAll with an empty replacement.
use holodex.Prelude.{
  ℕ, ◌-◌, Str, ◌=s◌, Bool, false, ◌&&◌, ◌||◌, Option, none, some, List, [], ◌∷◌, ◌==◌, length, take,
  drop, if◌then◌else◌, leb,
}

-- HasPrefix, with the text behind the prefix
unfoldable pub cut_prefix : Str → Str → Option Str
cut_prefix [] s = some s
cut_prefix (c ∷ p) [] = none
cut_prefix (c ∷ p) (d ∷ s) = let rest = cut_prefix p s in if c == d then rest else none

abbrev cut_at : ℕ → Option Str → Option (Str × Str) → Option (Str × Str)
cut_at c (some after) rest = some ([], after)
cut_at c none none = none
cut_at c none (some (before, after)) = some (c ∷ before, after)

-- Cut, around the first occurrence of a text that is not empty
unfoldable pub cut : Str → Str → Option (Str × Str)
unfolding cut_prefix
cut sep [] = none
cut sep (c ∷ s) = cut_at c (cut_prefix sep (c ∷ s)) (cut sep s)

-- CutSuffix
unfoldable pub cut_suffix : Str → Str → Option Str
cut_suffix suffix s =
    let n = length s - length suffix in
    if leb (length suffix) (length s) && drop n s =s suffix then some (take n s) else none

-- ReplaceAll(s, c, "")
unfoldable pub without : ℕ → Str → Str
without c [] = []
without c (d ∷ s) = let rest = without c s in if d == c then rest else d ∷ rest

unfoldable pub has : (ℕ → Bool) → Str → Bool
has p [] = false
has p (c ∷ s) = p c || has p s

unfoldable pub last_is : ℕ → Str → Bool
last_is c [] = false
last_is c (d ∷ []) = d == c
last_is c (d ∷ e ∷ s) = last_is c (e ∷ s)

unfoldable pub first_is : ℕ → Str → Bool
first_is c [] = false
first_is c (d ∷ s) = d == c

-- Split by one byte
unfoldable pub split : ℕ → Str → List Str
split c [] = [] ∷ []
split c (d ∷ s) =
    let rest = split c s in
    if d == c then [] ∷ rest else elim rest [ [] ↦ (d ∷ []) ∷ [] | p ∷ ps ↦ (d ∷ p) ∷ ps ]
