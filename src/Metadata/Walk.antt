-- ===== src/Metadata/Walk.antt =====
-- readElementHeader, readPayload and parseMatroskaTags of internal/metadata/matroska.go: the walk over
-- the elements of a file. A position is an int64 that is not negative below 2 ^ 63; a sum that
-- reaches 2 ^ 63 stands for the negative number it wraps to, at which ReadAt fails.
pub mod Ends
pub mod Caps
use holodex.Prelude.{
  ℕ, zero, suc, ◌+◌, ◌^◌, Str, Bool, true, false, not, ◌&&◌, ◌||◌, Option, none, some, List, [],
  ◌∷◌, ◌++◌, codes, ◌=s◌, ◌==◌, ltb, leb, length, take, drop, if◌then◌else◌,
}
use holodex.Metadata.Vint.{read_vint, unknown_size}
use holodex.Metadata.Elements.{Element, Header, children}
use holodex.Metadata.Tags.{SimpleTag, parse_tags}

pub data WalkError : Type 0 where
  end_of_file missing_header missing_segment negative_offset : WalkError
  bad_id bad_size too_large truncated : ℕ → WalkError
  unknown_element : ℕ → ℕ → WalkError

-- mkvTags: the map of keys is the function that says which are present.
pub record MkvTags : Type 0 where
  pub info_keys : Str → Bool
  pub tags : List SimpleTag

-- ReadAt of a file: none at a negative offset, and a shorter text at the end.
abbrev pub read_at : Str → ℕ → ℕ → Option Str
read_at file off n = if leb (2 ^ 63) off then none else some (take n (drop off file))

pub data HeaderRead : Type 0 where
  got : Header → HeaderRead
  failed : WalkError → HeaderRead

abbrev pub size_at : ℕ → Str → ℕ → ℕ → Option (ℕ × ℕ) → HeaderRead
size_at off b id n none = failed (if ltb (length b) 12 then end_of_file else bad_size off)
size_at off b id n (some (size, m)) =
    got (record { id = id; size = size; head_bytes = n + m; is_unknown = size == unknown_size m })

abbrev pub id_at : ℕ → Str → Option (ℕ × ℕ) → HeaderRead
id_at off b none = failed (bad_id off)
id_at off b (some (id, n)) =
    if ltb 4 n then failed (bad_id off) else size_at off b id n (read_vint (drop n b) true)

abbrev pub header_at : ℕ → Option Str → HeaderRead
header_at off none = failed negative_offset
header_at off (some []) = failed end_of_file
header_at off (some (c ∷ b)) = id_at off (c ∷ b) (read_vint (c ∷ b) false)

-- readElementHeader
unfoldable pub read_element_header : Str → ℕ → HeaderRead
read_element_header file off = header_at off (read_at file off 12)

-- ebmlMaxReadLength
abbrev pub max_read_length : ℕ
max_read_length = 16777216

abbrev pub or_empty : Option Str → Str
or_empty none = []
or_empty (some b) = b

pub data PayloadRead : Type 0 where
  payload : Str → PayloadRead
  refused : WalkError → PayloadRead

-- readPayload
unfoldable pub read_payload : Str → ℕ → ℕ → PayloadRead
read_payload file off size =
    if ltb max_read_length size
    then refused (too_large off)
    else if ltb (length (or_empty (read_at file off size))) size
    then refused (truncated off)
    else payload (or_empty (read_at file off size))

-- mkvInfoKeys
abbrev pub info_key : ℕ → Option Str
info_key id =
    if id == 31657
    then some (codes "Title")
    else if id == 17505
    then some (codes "DateTimeOriginal")
    else none

abbrev pub with_key : Option Str → (Str → Bool) → Str → Bool
with_key none keys k = keys k
with_key (some key) keys k = k =s key || keys k

abbrev pub with_keys : List Element → (Str → Bool) → Str → Bool
with_keys [] keys = keys
with_keys (c ∷ cs) keys = with_keys cs (with_key (info_key c.id) keys)

abbrev pub id_header : ℕ
id_header = 440786851

abbrev pub id_segment : ℕ
id_segment = 408125543

abbrev pub id_info : ℕ
id_info = 357149030

abbrev pub id_tags : ℕ
id_tags = 307544935

-- What is collected so far, and the error that ends the walk.
abbrev pub Walked : Type 0
Walked = MkvTags × Option WalkError

abbrev pub taken : Bool → PayloadRead → MkvTags → Walked
taken info (refused e) out = (out, some e)
taken true (payload b) out = (record out { info_keys = with_keys (children b) out.info_keys }, none)
taken false (payload b) out = (record out { tags = out.tags ++ parse_tags b }, none)

-- The body of the loop at an element, before the position moves on.
unfoldable pub visit : Str → ℕ → Header → MkvTags → Walked
visit file pos h out =
    if h.is_unknown
    then (out, some (unknown_element h.id pos))
    else if h.id == id_info || h.id == id_tags
    then taken (h.id == id_info) (read_payload file (pos + h.head_bytes) h.size) out
    else (out, none)

-- An error that is io.EOF ends the walk without one.
abbrev pub stopped : MkvTags → WalkError → Walked
stopped out end_of_file = (out, none)
stopped out missing_header = (out, some missing_header)
stopped out missing_segment = (out, some missing_segment)
stopped out negative_offset = (out, some negative_offset)
stopped out (bad_id off) = (out, some (bad_id off))
stopped out (bad_size off) = (out, some (bad_size off))
stopped out (too_large off) = (out, some (too_large off))
stopped out (truncated off) = (out, some (truncated off))
stopped out (unknown_element id off) = (out, some (unknown_element id off))

-- pos < end, where a position past 2 ^ 63 is negative
abbrev pub is_before : ℕ → ℕ → Bool
is_before pos end = ltb pos end || leb (2 ^ 63) pos

-- What follows the body: the error, or the rest of the loop at the next element.
abbrev pub move_on : ℕ → Header → (ℕ → MkvTags → Option Walked) → Walked → Option Walked
move_on pos h rest (out, some e) = some (out, some e)
move_on pos h rest (out, none) = rest (pos + h.head_bytes + h.size) out

abbrev pub round : Str → ℕ → MkvTags → (ℕ → MkvTags → Option Walked) → HeaderRead → Option Walked
round file pos out rest (failed e) = some (stopped out e)
round file pos out rest (got h) = move_on pos h rest (visit file pos h out)

-- The loop over the level-1 elements; none is fuel run out.
unfoldable pub walk : ℕ → Str → ℕ → ℕ → MkvTags → Option Walked
walk zero file end pos out = none
walk (suc fuel) file end pos out = elim (is_before pos end) [
  | false ↦ some (out, none)
  | true ↦ round file pos out (walk fuel file end) (read_element_header file pos)
]

abbrev pub no_tags : MkvTags
no_tags = record { info_keys = λ k. false; tags = [] }

-- The end of the segment
abbrev pub segment_end : ℕ → ℕ → Header → ℕ
segment_end file_size pos h =
    if not h.is_unknown && ltb (pos + h.size) file_size then pos + h.size else file_size

unfoldable pub walk_segment : Str → ℕ → ℕ → HeaderRead → Option Walked
walk_segment file file_size pos (failed e) = some (no_tags, some e)
walk_segment file file_size pos (got h) =
    if h.id == id_segment
    then walk (suc (suc file_size)) file (segment_end file_size (pos + h.head_bytes) h)
        (pos + h.head_bytes) no_tags
    else some (no_tags, some missing_segment)

abbrev pub after_header : Str → ℕ → HeaderRead → Option Walked
after_header file file_size (failed e) = some (no_tags, some e)
after_header file file_size (got h) =
    if not (h.id == id_header) || h.is_unknown
    then some (no_tags, some missing_header)
    else walk_segment file file_size (h.head_bytes + h.size)
        (read_element_header file (h.head_bytes + h.size))

-- parseMatroskaTags: a round moves on by two bytes at least, and one round past 2 ^ 63 ends the walk.
unfoldable pub parse_matroska_tags : Str → ℕ → Option Walked
parse_matroska_tags file file_size = after_header file file_size (read_element_header file 0)
