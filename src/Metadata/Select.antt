-- ===== src/Metadata/Select.antt =====
-- selectMatroskaTags, matroskaTagKey and normalizeTagKey of internal/metadata/matroska.go. A map is a
-- list of its entries, one for each key; an entry that is written stands before the one it replaces. The two regular expressions, canonicalKey and the
-- date form, and Unicode's cases are parameters.
pub mod Best
pub mod Honest
use holodex.Prelude.{
  ℕ, Str, Bool, true, false, not, ◌&&◌, ◌||◌, Option, none, some, List, [], ◌∷◌, ◌++◌, codes, ◌=s◌,
  ◌==◌, leb, ltb, if◌then◌else◌,
}
use holodex.Metadata.Tags.{SimpleTag, level_movie, level_season, level_collection}
use holodex.Metadata.Walk.{MkvTags}

-- The condition of the loop: an ASCII letter or digit
abbrev pub is_key_byte : ℕ → Bool
is_key_byte c = (leb b'a' c && leb c b'z') || (leb b'0' c && leb c b'9')

unfoldable pub key_bytes : Str → Str
key_bytes [] = []
key_bytes (c ∷ s) = let rest = key_bytes s in if is_key_byte c then c ∷ rest else rest

-- matroskaTagAliases
abbrev pub alias : Str → Str
alias k =
    if k =s codes "daterecorded"
    then codes "datetimeoriginal"
    else if k =s codes "datedigitized"
    then codes "createdate"
    else k

-- a < b on strings
infix 50 ◌<s◌
unfoldable pub ◌<s◌ : Str → Str → Bool
s <s [] = false
[] <s (d ∷ t) = true
(c ∷ s) <s (d ∷ t) = let rest = s <s t in if c == d then rest else ltb c d

-- strings.Join
unfoldable pub join_values : Str → List Str → Str
join_values sep [] = []
join_values sep (x ∷ []) = x
join_values sep (x ∷ y ∷ ys) = x ++ sep ++ join_values sep (y ∷ ys)

-- What selectMatroskaTags calls: strings.ToLower, canonicalKey, whether a name starts with DATE_ when its
-- case is raised, mkvDateSep.ReplaceAllString, and the sets of keys with several values.
pub record Naming : Type 0 where
  pub to_lower : Str → Str
  pub canonical_key : Str → Str
  pub is_date_name : Str → Bool
  pub date_form : Str → Str
  pub is_multi : Str → Bool

unfoldable pub lookup {ℓ} : {V : Type ℓ} → Str → List (Str × V) → Option V
lookup k [] = none
lookup k (e ∷ es) = let rest = lookup k es in if e.0 =s k then some e.1 else rest

module _ {V : Type 0} (n : Naming) (text : Str → V) where
  -- normalizeTagKey
  abbrev pub normalize_tag_key : Str → Str
  normalize_tag_key s = key_bytes (n.to_lower s)

  -- matroskaTagKey
  abbrev pub matroska_tag_key : Str → Str
  matroska_tag_key name = alias (normalize_tag_key name)

  -- The value as exiftool renders it
  abbrev pub shown : SimpleTag → Str
  shown t = if n.is_date_name t.name then n.date_form t.value else t.value

  abbrev pub has_key : Str → SimpleTag → Bool
  has_key nk t = matroska_tag_key t.name =s nk

  -- Whether byKey has the key: every tag enters it, a bound one without a value.
  unfoldable pub is_known : Str → List SimpleTag → Bool
  is_known nk [] = false
  is_known nk (t ∷ ts) = has_key nk t || is_known nk ts

  abbrev pub counts_at : Str → ℕ → SimpleTag → Bool
  counts_at nk level t = has_key nk t && not t.is_bound && t.level == level

  -- byKey[nk][level]
  unfoldable pub values_at : Str → ℕ → List SimpleTag → List Str
  values_at nk level [] = []
  values_at nk level (t ∷ ts) =
      let rest = values_at nk level ts in if counts_at nk level t then shown t ∷ rest else rest

  -- The first of the values, or what comes for lack of one
  abbrev pub first_or : Str → List Str → Str
  first_or other [] = other
  first_or other (v ∷ vs) = v

  -- The value for a key, empty for none
  unfoldable pub chosen : Str → List SimpleTag → Str
  chosen nk ts =
      if n.is_multi nk
      then join_values (codes ", ") (values_at nk level_movie ts)
      else first_or
          (first_or (first_or [] (values_at nk level_collection ts)) (values_at nk level_season ts))
          (values_at nk level_movie ts)

  -- The entries that stay: no tag has their key, or a segment Info element does.
  unfoldable pub kept : MkvTags → List (Str × V) → List (Str × V)
  kept mt [] = []
  kept mt (e ∷ es) =
      let rest = kept mt es in
      if not (is_known (normalize_tag_key (n.canonical_key e.0)) mt.tags) || mt.info_keys e.0
      then e ∷ rest
      else rest

  -- The least spelling for a normalized key
  abbrev pub least : Str → Option Str → Str
  least ck none = ck
  least ck (some prev) = if ck <s prev then ck else prev

  unfoldable pub without_key : Str → List (Str × Str) → List (Str × Str)
  without_key k [] = []
  without_key k (e ∷ es) = let rest = without_key k es in if e.0 =s k then rest else e ∷ rest

  -- names[nk] = ck
  abbrev pub put : Str → Str → List (Str × Str) → List (Str × Str)
  put nk ck names = (nk, ck) ∷ without_key nk names

  -- The names map: each known key with its spelling
  unfoldable pub names_of : MkvTags → List (Str × V) → List (Str × Str) → List (Str × Str)
  names_of mt [] names = names
  names_of mt (e ∷ es) names =
      let ck = n.canonical_key e.0 in
      let nk = normalize_tag_key ck in
      names_of mt es
        (if is_known nk mt.tags then put nk (least ck (lookup nk names)) names else names)

  -- The second loop, over the names that an Info element does not have
  unfoldable pub chosen_entries : MkvTags → List (Str × Str) → List (Str × V) → List (Str × V)
  chosen_entries mt [] out = out
  chosen_entries mt (p ∷ names) out =
      let rest = chosen_entries mt names out in
      if mt.info_keys p.1 || (chosen p.0 mt.tags =s [])
      then rest
      else (p.1, text (chosen p.0 mt.tags)) ∷ rest

  -- selectMatroskaTags
  unfoldable pub select_matroska_tags : List (Str × V) → MkvTags → List (Str × V)
  select_matroska_tags raw mt = elim mt.tags [
    | [] ↦ raw
    | t ∷ ts ↦ chosen_entries mt (names_of mt raw []) (kept mt raw)
  ]
