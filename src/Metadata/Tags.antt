-- ===== src/Metadata/Tags.antt =====
-- mkvSimpleTag and parseTags of internal/metadata/matroska.go: the tags in the payload of a Tags
-- element. A target level is the 64 bits of its int.
pub mod Sizes
use holodex.Prelude.{
  ℕ, Str, Bool, true, false, not, ◌||◌, Option, none, some, List, [], ◌∷◌, ◌++◌, map, ◌==◌,
  if◌then◌else◌,
}
use holodex.Metadata.Vint.{read_uint}
use holodex.Metadata.Elements.{Element, children, first_child}

abbrev pub level_movie : ℕ
level_movie = 50

abbrev pub level_season : ℕ
level_season = 60

abbrev pub level_collection : ℕ
level_collection = 70

abbrev pub id_tag : ℕ
id_tag = 29555

abbrev pub id_targets : ℕ
id_targets = 25536

abbrev pub id_target_type : ℕ
id_target_type = 26826

abbrev pub id_simple_tag : ℕ
id_simple_tag = 26568

abbrev pub id_tag_name : ℕ
id_tag_name = 17827

abbrev pub id_tag_string : ℕ
id_tag_string = 17543

-- ebmlIDTrackUID, ebmlIDEditionUID, ebmlIDChapterUID, ebmlIDAttachUID
abbrev pub is_uid : ℕ → Bool
is_uid id = id == 25541 || id == 25545 || id == 25540 || id == 25542

-- mkvSimpleTag
pub record SimpleTag : Type 0 where
  pub name : Str
  pub value : Str
  pub level : ℕ
  pub is_bound : Bool

-- level and bound, while a Tag element is read
pub record Target : Type 0 where
  pub level : ℕ
  pub is_bound : Bool

abbrev pub aim : Element → Target → Target
aim t g =
    if t.id == id_target_type
    then record g { level = read_uint t.content }
    else if is_uid t.id
    then record g { is_bound = if read_uint t.content == 0 then g.is_bound else true }
    else g

-- The loop over the children of a Targets element
unfoldable pub aim_all : List Element → Target → Target
aim_all [] g = g
aim_all (t ∷ ts) g = aim_all ts (aim t g)

abbrev pub named : Option Str → Option Str → List (Str × Str)
named (some name) (some value) = (name, value) ∷ []
named (some name) none = []
named none value = []

-- What a Tag element has so far: level, bound and simple.
pub record Draft : Type 0 where
  pub target : Target
  pub simple : List (Str × Str)

abbrev pub gather : Element → Draft → Draft
gather c d =
    if c.id == id_targets
    then record d { target = aim_all (children c.content) d.target }
    else if c.id == id_simple_tag
    then record d {
      simple =
          d.simple
          ++ named (first_child c.content id_tag_name) (first_child c.content id_tag_string);
    }
    else d

-- The loop over the children of a Tag element
unfoldable pub gather_all : List Element → Draft → Draft
gather_all [] d = d
gather_all (c ∷ cs) d = gather_all cs (gather c d)

abbrev pub under : Target → Str × Str → SimpleTag
under g p = record { name = p.0; value = p.1; level = g.level; is_bound = g.is_bound }

abbrev pub new_draft : Draft
new_draft = record { target = record { level = level_movie; is_bound = false }; simple = [] }

-- The second loop, which writes the target into each tag
abbrev pub drafted : Draft → List SimpleTag
drafted d = map (under d.target) d.simple

unfoldable pub tags_of : List Element → List SimpleTag
tags_of [] = []
tags_of (e ∷ es) =
    let rest = tags_of es in
    if e.id == id_tag then drafted (gather_all (children e.content) new_draft) ++ rest else rest

-- parseTags
unfoldable pub parse_tags : Str → List SimpleTag
parse_tags b = tags_of (children b)
