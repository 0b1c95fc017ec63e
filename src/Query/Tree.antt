-- ===== src/Query/Tree.antt =====
-- internal/query/query.go: the fields, the tree, and the walks over its conditions.
use holodex.Prelude.{
  ℕ, Str, codes, ◌=s◌, Bool, true, false, ◌||◌, Option, List, [], ◌∷◌, ◌++◌, if◌then◌else◌,
}

abbrev pub max_bytes : ℕ
max_bytes = 1000

abbrev pub max_depth : ℕ
max_depth = 8

abbrev pub max_conditions : ℕ
max_conditions = 64

abbrev pub field_tag : Str
field_tag = codes "tag"

abbrev pub field_person : Str
field_person = codes "person"

abbrev pub field_studio : Str
field_studio = codes "studio"

abbrev pub field_category : Str
field_category = codes "category"

abbrev pub field_resolution : Str
field_resolution = codes "resolution"

abbrev pub field_year : Str
field_year = codes "year"

abbrev pub field_duration : Str
field_duration = codes "duration"

abbrev pub field_matched : Str
field_matched = codes "matched"

abbrev pub field_added : Str
field_added = codes "added"

abbrev pub field_playlist : Str
field_playlist = codes "playlist"

abbrev pub field_updated : Str
field_updated = codes "updated"

abbrev pub field_released : Str
field_released = codes "released"

abbrev pub field_watched : Str
field_watched = codes "watched"

abbrev pub field_plays : Str
field_plays = codes "plays"

abbrev pub field_played : Str
field_played = codes "played"

abbrev pub watched_yes : Str
watched_yes = codes "yes"

abbrev pub watched_no : Str
watched_no = codes "no"

abbrev pub matched_any : Str
matched_any = codes "any"

-- A mapped field's kind; a condition on a built-in field has the empty one.
pub data Kind : Type 0 where
  unmapped text list date number gone : Kind

pub data Op : Type 0 where
  eq lt le gt ge range : Op

pub record FieldSpec : Type 0 where
  pub kind : Kind
  pub label : Str
  pub owner_only : Bool

-- The catalogue of mapped fields, by name.
abbrev pub Fields : Type 0
Fields = Str → Option FieldSpec

unfoldable pub any_of : List Str → Str → Bool
any_of [] s = false
any_of (t ∷ ts) s = s =s t || any_of ts s

abbrev entity_field_names : List Str
entity_field_names = field_tag ∷ field_person ∷ field_studio ∷ field_category ∷ field_playlist ∷ []

abbrev known_field_names : List Str
known_field_names =
    field_tag ∷ field_person ∷ field_studio ∷ field_category ∷ field_resolution ∷ field_year
    ∷ field_duration ∷ field_matched ∷ field_added ∷ field_playlist ∷ field_updated ∷ field_released
    ∷ field_watched ∷ field_plays ∷ field_played ∷ []

abbrev date_field_names : List Str
date_field_names = field_added ∷ field_updated ∷ field_released ∷ field_played ∷ []

-- IsEntityField
unfoldable pub is_entity_field : Str → Bool
unfolding any_of
is_entity_field = any_of entity_field_names

-- IsBuiltin, and the parser's look at knownFields
unfoldable pub is_builtin : Str → Bool
unfolding any_of
is_builtin = any_of known_field_names

unfoldable pub is_date_field : Str → Bool
unfolding any_of
is_date_field = any_of date_field_names

pub record Cond : Type 0 where
  pub field : Str
  pub op : Op
  pub value : Str
  pub quoted : Bool
  pub id : ℕ
  pub lo : ℕ
  pub hi : ℕ
  pub pos : ℕ
  pub stop : ℕ
  pub kind : Kind
  pub field_label : Str
  pub owner : Bool

pub record Word : Type 0 where
  pub text : Str
  pub pos : ℕ
  pub stop : ℕ

mutual
  pub data Node : Type 0 where
    any : Nodes → Node
    all : Nodes → Node
    not : Node → Node
    cond : Cond → Node
    word : Word → Node

  pub data Nodes : Type 0 where
    nil : Nodes
    cons : Node → Nodes → Nodes

-- Conds: every condition, in source order
unfoldable mutual
  pub conds : Node → List Cond
  conds (any ns) = conds_of ns
  conds (all ns) = conds_of ns
  conds (not n) = conds n
  conds (cond c) = c ∷ []
  conds (word w) = []

  pub conds_of : Nodes → List Cond
  conds_of nil = []
  conds_of (cons n ns) = conds n ++ conds_of ns

-- Cond.ownerOnly
unfoldable pub cond_owner_only : Cond → Bool
cond_owner_only c =
    if c.field =s field_matched
    then true
    else if c.field =s field_watched
    then true
    else if c.field =s field_plays
    then true
    else if c.field =s field_played
    then true
    else c.owner

unfoldable pub some_owner_only : List Cond → Bool
some_owner_only [] = false
some_owner_only (c ∷ cs) = cond_owner_only c || some_owner_only cs

-- OwnerOnly
unfoldable pub owner_only : Node → Bool
unfolding some_owner_only
owner_only n = some_owner_only (conds n)

abbrev reads_index : Cond → Bool
reads_index c = elim c.kind [
  | unmapped ↦ c.field =s field_updated || c.field =s field_released
  | _ ↦ true
]

unfoldable pub some_reads_index : List Cond → Bool
some_reads_index [] = false
some_reads_index (c ∷ cs) = reads_index c || some_reads_index cs

-- NeedsIndex
unfoldable pub needs_index : Node → Bool
unfolding some_reads_index
needs_index n = some_reads_index (conds n)

abbrev pub is_gone : Kind → Bool
is_gone gone = true
is_gone _ = false

unfoldable pub gone_of : List Cond → List Str
gone_of [] = []
gone_of (c ∷ cs) = let rest = gone_of cs in if is_gone c.kind then c.field ∷ rest else rest

-- GoneFields
unfoldable pub gone_fields : Node → List Str
unfolding gone_of
gone_fields n = gone_of (conds n)
