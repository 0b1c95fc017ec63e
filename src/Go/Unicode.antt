-- ===== src/Go/Unicode.antt =====
-- What the program asks of Go's Unicode tables, as a parameter of the definitions that use it, and
-- the tables of the ASCII characters, which serve the tests.
use holodex.Prelude.{
  ℕ, ◌+◌, ◌-◌, Str, ◌=s◌, Bool, true, ◌&&◌, ◌||◌, [], ◌∷◌, ◌==◌, leb, map, if◌then◌else◌,
}

pub record Unicode : Type 0 where
  -- every rune of the text is a letter or an underscore
  pub is_identifier : Str → Bool
  -- strings.ToLower, strings.ToUpper, strings.TrimSpace, strings.EqualFold
  pub to_lower : Str → Str
  pub to_upper : Str → Str
  pub trim_space : Str → Str
  pub equal_fold : Str → Str → Bool

abbrev lower_byte : ℕ → ℕ
lower_byte c = if leb b'A' c && leb c b'Z' then c + 32 else c

abbrev upper_byte : ℕ → ℕ
upper_byte c = if leb b'a' c && leb c b'z' then c - 32 else c

abbrev is_name_byte : ℕ → Bool
is_name_byte c = (leb b'a' (lower_byte c) && leb (lower_byte c) b'z') || c == b'_'

unfoldable pub ascii_identifier : Str → Bool
ascii_identifier [] = true
ascii_identifier (c ∷ s) = is_name_byte c && ascii_identifier s

abbrev is_blank : ℕ → Bool
is_blank c = c == b' ' || (leb 9 c && leb c 13)

unfoldable pub trim_left : Str → Str
trim_left [] = []
trim_left (c ∷ s) = let rest = trim_left s in if is_blank c then rest else c ∷ s

unfoldable pub trim_right : Str → Str
trim_right [] = []
trim_right (c ∷ s) = let rest = trim_right s in if rest =s [] && is_blank c then [] else c ∷ rest

abbrev pub ascii : Unicode
ascii = record {
  is_identifier = ascii_identifier;
  to_lower = map lower_byte;
  to_upper = map upper_byte;
  trim_space = λ s. trim_left (trim_right s);
  equal_fold = λ s t. map lower_byte s =s map lower_byte t;
}
