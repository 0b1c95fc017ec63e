-- ===== src/Metadata/Walk/Caps.antt =====
-- What the walk keeps in memory: every text of a tag stays within the cap on a payload.
use holodex.Prelude.{
  ℕ, zero, suc, ◌+◌, ◌^◌, ◌≤◌, ◌≡◌, refl, subst, not, arith, Str, Bool, true, false, ◌||◌, Option,
  none, some, [], ◌∷◌, ltb, leb, length, take, drop, if◌then◌else◌, if_both, All, ◌==◌,
}
use holodex.Metadata.Elements.{Header}
use holodex.Metadata.Tags.{parse_tags}
use holodex.Metadata.Walk.Ends.{parse_matroska_tags-Returns}
use holodex.Metadata.Tags.Sizes.{TagShort, All-append, parse_tags-Short}
use holodex.Metadata.Walk.{
  WalkError, MkvTags, Walked, HeaderRead, got, failed, read_at, read_element_header, or_empty,
  max_read_length, PayloadRead, payload, refused, read_payload, taken, visit, is_before, move_on,
  round, walk, walk_segment, after_header, parse_matroska_tags, no_tags, stopped, id_header,
  id_segment, id_info, id_tags,
}

abbrev Capped : PayloadRead → Type 0
Capped (payload b) = length b ≤ max_read_length
Capped (refused e) = Unit

length-take_bound : (k : ℕ) (xs : Str) → length (take k xs) ≤ k
length-take_bound zero xs = omega arith
length-take_bound (suc k) [] = omega arith
length-take_bound (suc k) (x ∷ xs) = omega (arith, length-take_bound k xs)

read_at-le : (file : Str) (off n : ℕ) → length (or_empty (read_at file off n)) ≤ n
read_at-le file off n =
    if_both (λ (o : Option Str). length (or_empty o) ≤ n) (leb (2 ^ 63) off) (omega arith)
      (length-take_bound n (drop off file))

le_of_not_ltb : (a b : ℕ) → ltb a b ≡ false → b ≤ a
le_of_not_ltb a b h = ground arith

read_payload-Short : (file : Str) (off size : ℕ) → Capped (read_payload file off size)
unfolding read_payload
read_payload-Short file off size = by_test (ltb max_read_length size) refl
  where
    buf : Str
    buf = or_empty (read_at file off size)

    by_test :
        (t : Bool)
        → ltb max_read_length size ≡ t
        → Capped (
            if t
            then refused (WalkError.too_large off)
            else if ltb (length (or_empty (read_at file off size))) size
            then refused (WalkError.truncated off)
            else payload (or_empty (read_at file off size)))
    by_test true e = tt
    by_test false e =
        if_both Capped (ltb (length buf) size) tt
          (omega (arith, read_at-le file off size, le_of_not_ltb _ _ e))

abbrev TagsShort : MkvTags → Type 0
TagsShort out = All (TagShort max_read_length) out.tags

taken-Short :
    (info : Bool) (p : PayloadRead) (out : MkvTags)
    → Capped p
    → TagsShort out
    → TagsShort (taken info p out).0
taken-Short info (refused e) out h k = k
taken-Short true (payload b) out h k = k
taken-Short false (payload b) out h k =
    All-append (TagShort max_read_length) out.tags (parse_tags b) k
      (parse_tags-Short max_read_length b h)

abbrev WalkedShort : Walked → Type 0
WalkedShort w = TagsShort w.0

visit-Short :
    (file : Str) (pos : ℕ) (h : Header) (out : MkvTags)
    → TagsShort out
    → TagsShort (visit file pos h out).0
unfolding visit
visit-Short file pos h out k = if_both WalkedShort h.is_unknown k (
    if_both WalkedShort (h.id == id_info || h.id == id_tags)
      (taken-Short (h.id == id_info) _ out (read_payload-Short file (pos + h.head_bytes) h.size) k)
      k)

-- What a result keeps, where there is one.
abbrev Kept : Option Walked → Type 0
Kept none = Unit
Kept (some w) = WalkedShort w

stopped-Short : (out : MkvTags) (e : WalkError) → TagsShort out → WalkedShort (stopped out e)
stopped-Short out WalkError.end_of_file h = h
stopped-Short out WalkError.missing_header h = h
stopped-Short out WalkError.missing_segment h = h
stopped-Short out WalkError.negative_offset h = h
stopped-Short out (WalkError.bad_id off) h = h
stopped-Short out (WalkError.bad_size off) h = h
stopped-Short out (WalkError.too_large off) h = h
stopped-Short out (WalkError.truncated off) h = h
stopped-Short out (WalkError.unknown_element id off) h = h

move_on-Short :
    (pos : ℕ) (h : Header) (rest : ℕ → MkvTags → Option Walked)
    → ((next : ℕ) (out : MkvTags) → TagsShort out → Kept (rest next out))
    → (w : Walked) → WalkedShort w
    → Kept (move_on pos h rest w)
move_on-Short pos h rest later (out, some e) k = k
move_on-Short pos h rest later (out, none) k = later (pos + h.head_bytes + h.size) out k

round-Short :
    (file : Str) (pos : ℕ) (out : MkvTags) (rest : ℕ → MkvTags → Option Walked)
    → ((next : ℕ) (out : MkvTags) → TagsShort out → Kept (rest next out))
    → TagsShort out
    → (r : HeaderRead) → Kept (round file pos out rest r)
round-Short file pos out rest later k (failed e) = stopped-Short out e k
round-Short file pos out rest later k (got h) =
    move_on-Short pos h rest later (visit file pos h out) (visit-Short file pos h out k)

walk-Short :
    (fuel : ℕ) (file : Str) (end pos : ℕ) (out : MkvTags)
    → TagsShort out
    → Kept (walk fuel file end pos out)
unfolding walk
walk-Short zero file end pos out k = tt
walk-Short (suc fuel) file end pos out k =
    by_before (is_before pos end) (λ next out' h. walk-Short fuel file end next out' h)
  where
    by_before :
        (t : Bool)
        → ((next : ℕ) (out : MkvTags) → TagsShort out → Kept (walk fuel file end next out))
        → Kept (elim t [
          | false ↦ some (out, none)
          | true ↦ round file pos out (walk fuel file end) (read_element_header file pos)
        ])
    by_before false later = k
    by_before true later =
        round-Short file pos out (walk fuel file end) later k (read_element_header file pos)

walk_segment-Short :
    (file : Str) (file_size pos : ℕ) (r : HeaderRead) → Kept (walk_segment file file_size pos r)
unfolding walk_segment
walk_segment-Short file file_size pos (failed e) = tt
walk_segment-Short file file_size pos (got h) =
    if_both Kept (h.id == id_segment)
      (walk-Short (suc (suc file_size)) file _ (pos + h.head_bytes) no_tags tt) tt

after_header-Short :
    (file : Str) (file_size : ℕ) (r : HeaderRead) → Kept (after_header file file_size r)
after_header-Short file file_size (failed e) = tt
after_header-Short file file_size (got h) =
    if_both Kept (not (h.id == id_header) || h.is_unknown) tt (
      walk_segment-Short file file_size (h.head_bytes + h.size)
        (read_element_header file (h.head_bytes + h.size)))

-- Every name and value of a tag that parseMatroskaTags returns, with or without an error, has at most
-- 16 MiB, whatever sizes the file declares.
pub parse_matroska_tags-Short :
    (file : Str) (file_size : ℕ)
    → (w : Walked) × ((parse_matroska_tags file file_size ≡ some w)
        × All (TagShort max_read_length) w.0.tags)
unfolding parse_matroska_tags
parse_matroska_tags-Short file file_size =
    let ret = parse_matroska_tags-Returns file file_size in
    (
      ret.0,
      (ret.1, subst Kept ret.1 (after_header-Short file file_size (read_element_header file 0))),
    )
