-- ===== src/Rename/Name.antt =====
-- internal/rename/name.go: the rules on a whole file name, and the key that collisions compare. What
-- Go's libraries say of Unicode and of paths is a parameter.
use holodex.Prelude.{
  ℕ, Str, codes, ◌=s◌, Bool, false, not, ◌&&◌, ◌||◌, Option, none, some, List, [], ◌∷◌, ◌++◌, ◌==◌,
  ltb, length, if◌then◌else◌,
}
use holodex.Go.Strings.{has, last_is, cut}

pub record Names : Type 0 where
  -- the text is UTF-8, and in the normal form NFC
  pub is_text : Str → Bool
  -- a rune is a control character or of the category Cf
  pub has_format : Str → Bool
  pub to_upper : Str → Str
  -- filepath.IsLocal(name) && filepath.Base(name) == name
  pub is_local : Str → Bool
  -- norm.NFC.String and cases.Fold().String
  pub nfc : Str → Str
  pub fold : Str → Str

pub data NameError : Type 0 where
  invalid_text empty_name reserved trailing too_long bad_char not_local clash : NameError

abbrev max_name_bytes : ℕ
max_name_bytes = 255

-- One of `<>:"/\|?*`
abbrev forbidden : ℕ → Bool
forbidden c =
    c == b'<'
    || c == b'>'
    || c == b':'
    || c == 34
    || c == b'/'
    || c == 92
    || c == b'|'
    || c == b'?'
    || c == b'*'

unfoldable pub trim_spaces : Str → Str
trim_spaces [] = []
trim_spaces (c ∷ s) = let rest = trim_spaces s in if rest =s [] && c == b' ' then [] else c ∷ rest

abbrev before_dot : Str → Option (Str × Str) → Str
before_dot name none = name
before_dot name (some (stem, rest)) = stem

abbrev stems : List Str
stems =
    codes "CON" ∷ codes "PRN" ∷ codes "AUX" ∷ codes "NUL" ∷ codes "CONIN$" ∷ codes "CONOUT$" ∷ []

-- The digits 1 to 9, and the superscripts one, two and three in UTF-8
abbrev port_digits : List Str
port_digits =
    codes "1"
    ∷ codes "2"
    ∷ codes "3"
    ∷ codes "4"
    ∷ codes "5"
    ∷ codes "6"
    ∷ codes "7"
    ∷ codes "8"
    ∷ codes "9"
    ∷ (194 ∷ 185 ∷ [])
    ∷ (194 ∷ 178 ∷ [])
    ∷ (194 ∷ 179 ∷ [])
    ∷ []

unfoldable pub one_of : Str → Str → List Str → Bool
one_of prefix s [] = false
one_of prefix s (t ∷ ts) = s =s (prefix ++ t) || one_of prefix s ts

-- reservedStems
unfoldable pub is_reserved_stem : Str → Bool
unfolding one_of
is_reserved_stem s =
    one_of [] s stems || one_of (codes "COM") s port_digits || one_of (codes "LPT") s port_digits

module _ (n : Names) where
  -- IsReserved
  unfoldable pub is_reserved : Str → Bool
  unfolding is_reserved_stem trim_spaces cut
  is_reserved name =
      is_reserved_stem (n.to_upper (trim_spaces (before_dot name (cut (codes ".") name))))

  -- CheckName; none is no error
  unfoldable pub check_name : Str → Option NameError
  unfolding is_reserved has last_is
  check_name name =
      if not (n.is_text name)
      then some invalid_text
      else if name =s [] || name =s codes "." || name =s codes ".."
      then some empty_name
      else if has forbidden name || n.has_format name
      then some bad_char
      else if last_is b'.' name || last_is b' ' name
      then some trailing
      else if is_reserved name
      then some reserved
      else if ltb max_name_bytes (length name)
      then some too_long
      else if not (n.is_local name)
      then some not_local
      else none

  -- FoldKey
  abbrev pub fold_key : Str → Str
  fold_key name = n.nfc (n.fold (n.nfc name))
