-- ===== src/Metadata/Elements.antt =====
-- children and firstChild of internal/metadata/matroska.go: a payload split into its elements.
pub mod Coding
pub mod Enough
use holodex.Prelude.{
  ℕ, zero, suc, ◌+◌, ◌-◌, Str, Bool, true, false, ◌||◌, Option, none, some, List, [], ◌∷◌, ◌==◌,
  ltb, length, take, drop, if◌then◌else◌,
}
use holodex.Metadata.Vint.{read_vint, unknown_size}

-- ebmlElement
pub record Element : Type 0 where
  pub id : ℕ
  pub content : Str

-- The two integers before an element's content: its ID, its size and the bytes they take.
pub record Header : Type 0 where
  pub id : ℕ
  pub size : ℕ
  pub head_bytes : ℕ
  pub is_unknown : Bool

abbrev pub sized : ℕ → ℕ → Option (ℕ × ℕ) → Option Header
sized id id_bytes none = none
sized id id_bytes (some (size, size_bytes)) = some (record {
  id = id;
  size = size;
  head_bytes = id_bytes + size_bytes;
  is_unknown = size == unknown_size size_bytes;
})

abbrev pub identified : Str → Option (ℕ × ℕ) → Option Header
unfolding read_vint
identified b none = none
identified b (some (id, id_bytes)) = sized id id_bytes (read_vint (drop id_bytes b) true)

-- The two calls of readVint
unfoldable pub read_header : Str → Option Header
unfolding read_vint identified
read_header b = identified b (read_vint b false)

-- A malformed child ends the list.
unfoldable pub fitting : Str → Option Header → Option Header
fitting b none = none
fitting b (some h) = if h.is_unknown || ltb (length b - h.head_bytes) h.size then none else some h

unfoldable pub children_from : ℕ → Str → List Element
children_from fuel [] = []
children_from zero (c ∷ b) = []
children_from (suc fuel) (c ∷ b) = elim (fitting (c ∷ b) (read_header (c ∷ b))) [
  | none ↦ []
  | some h ↦
      (record { id = h.id; content = take h.size (drop h.head_bytes (c ∷ b)) })
      ∷ children_from fuel (drop (h.head_bytes + h.size) (c ∷ b))
]

-- children: each element takes two bytes at least, so a round for each byte is enough.
unfoldable pub children : Str → List Element
children b = children_from (length b) b

abbrev pub found : ℕ → Element → Option Str → Option Str
found id e rest = if e.id == id then some e.content else rest

unfoldable pub find_child : ℕ → List Element → Option Str
find_child id [] = none
find_child id (e ∷ es) = found id e (find_child id es)

-- firstChild
unfoldable pub first_child : Str → ℕ → Option Str
first_child b id = find_child id (children b)
