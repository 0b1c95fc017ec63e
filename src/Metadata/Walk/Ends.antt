-- ===== src/Metadata/Walk/Ends.antt =====
-- The walk over a file ends.
use holodex.Prelude.{
  ℕ, zero, suc, ◌+◌, ◌-◌, ◌^◌, ◌≤◌, ◌≡◌, refl, arith, Str, Bool, true, false, ◌||◌, Option, none,
  some, ◌∷◌, [], ltb, leb, drop, if◌then◌else◌, not, ◌==◌, subst, sym,
}
use holodex.Metadata.Vint.{read_vint}
use holodex.Metadata.Vint.Bounds.{Fits, read_vint-Fits}
use holodex.Metadata.Elements.{Header}
use holodex.Metadata.Walk.{
  WalkError, MkvTags, Walked, HeaderRead, got, failed, size_at, id_at, header_at, read_at,
  read_element_header, visit, is_before, move_on, round, walk, negative_offset, walk_segment,
  after_header, parse_matroska_tags, segment_end, no_tags, stopped, id_segment, id_header,
  missing_header, missing_segment,
}

-- A header that is read takes bytes.
abbrev Moves : HeaderRead → Type 0
Moves (got h) = 1 ≤ h.head_bytes
Moves (failed e) = Unit

size_at-Moves :
    (off : ℕ) (b : Str) (id n : ℕ) (o : Option (ℕ × ℕ)) → 1 ≤ n → Moves (size_at off b id n o)
size_at-Moves off b id n none h = tt
size_at-Moves off b id n (some (size, m)) h = omega arith

id_at-Moves : (off : ℕ) (b c : Str) (o : Option (ℕ × ℕ)) → Fits c o → Moves (id_at off b o)
id_at-Moves off b c none h = tt
id_at-Moves off b c (some (id, n)) h = by_test (ltb 4 n)
  where
    by_test :
        (t : Bool)
        → Moves (
            if t
            then failed (WalkError.bad_id off)
            else size_at off b id n (read_vint (drop n b) true))
    by_test true = tt
    by_test false = size_at-Moves off b id n (read_vint (drop n b) true) h.0

header_at-Moves : (off : ℕ) (o : Option Str) → Moves (header_at off o)
header_at-Moves off none = tt
header_at-Moves off (some []) = tt
header_at-Moves off (some (c ∷ b)) =
    id_at-Moves off (c ∷ b) (c ∷ b) (read_vint (c ∷ b) false) (read_vint-Fits (c ∷ b) false)

read_element_header-Moves : (file : Str) (off : ℕ) → Moves (read_element_header file off)
unfolding read_element_header
read_element_header-Moves file off = header_at-Moves off (read_at file off 12)

-- A result that is there.
abbrev pub Returns : Option Walked → Type 0
Returns o = (w : Walked) × (o ≡ some w)

-- Past 2 ^ 63 the next read fails.
read_negative :
    (file : Str) (pos : ℕ)
    → leb (2 ^ 63) pos ≡ true
    → read_element_header file pos ≡ failed negative_offset
unfolding read_element_header
read_negative file pos h = rw (h) refl

module _ (file : Str) (pos : ℕ) (rest : ℕ → MkvTags → Option Walked)
    (later : (next : ℕ) (out : MkvTags) → suc pos ≤ next → Returns (rest next out)) where
  move_on-Returns : (h : Header) → 1 ≤ h.head_bytes → (w : Walked) → Returns (move_on pos h rest w)
  move_on-Returns h k (out, some e) = ((out, some e), refl)
  move_on-Returns h k (out, none) = later (pos + h.head_bytes + h.size) out (omega arith)

  round-Returns : (out : MkvTags) (r : HeaderRead) → Moves r → Returns (round file pos out rest r)
  round-Returns out (failed e) k = (stopped out e, refl)
  round-Returns out (got h) k = move_on-Returns h k (visit file pos h out)

-- A round for each byte up to the end, one that finds the end, and one past 2 ^ 63.
walk-Returns :
    (fuel : ℕ) (file : Str) (end pos : ℕ) (out : MkvTags)
    → suc (suc (end - pos)) ≤ fuel
    → Returns (walk fuel file end pos out)
unfolding walk
walk-Returns zero file end pos out h = absurd (omega arith)
walk-Returns (suc fuel) file end pos out h =
    by_before (is_before pos end) refl (leb (2 ^ 63) pos) refl
      (λ next out' lt. walk-Returns fuel file end next out' lt)
  where
    by_before :
        (t : Bool)
        → is_before pos end ≡ t
        → (n : Bool) → leb (2 ^ 63) pos ≡ n
        → ((next : ℕ) (out' : MkvTags)
            → suc (suc (end - next)) ≤ fuel
            → Returns (walk fuel file end next out'))
        → Returns (elim t [
          | false ↦ some (out, none)
          | true ↦ round file pos out (walk fuel file end) (read_element_header file pos)
        ])
    by_before false e n k later = ((out, none), refl)
    by_before true e true k later =
        subst (λ (r : HeaderRead). Returns (round file pos out (walk fuel file end) r))
          (sym (read_negative file pos k)) (stopped out negative_offset, refl)
    by_before true e false k later =
        round-Returns file pos (walk fuel file end) (λ next out' lt. later next out' (ground arith))
          out (read_element_header file pos) (read_element_header-Moves file pos)

segment_end-le : (file_size pos : ℕ) (h : Header) → segment_end file_size pos h ≤ file_size
segment_end-le file_size pos h = ground arith

walk_segment-Returns :
    (file : Str) (file_size pos : ℕ) (r : HeaderRead) → Returns (walk_segment file file_size pos r)
unfolding walk_segment
walk_segment-Returns file file_size pos (failed e) = ((no_tags, some e), refl)
walk_segment-Returns file file_size pos (got h) = by_test (h.id == id_segment)
  where
    first : ℕ
    first = pos + h.head_bytes

    end : ℕ
    end = segment_end file_size first h

    by_test :
        (t : Bool)
        → Returns (
            if t
            then walk
                (suc (suc file_size))
                file
                (segment_end file_size (pos + h.head_bytes) h)
                (pos + h.head_bytes)
                no_tags
            else some (no_tags, some missing_segment))
    by_test true =
        walk-Returns (suc (suc file_size)) file end first no_tags
          (omega (arith, segment_end-le file_size first h))
    by_test false = ((no_tags, some missing_segment), refl)

-- parseMatroskaTags returns, with its tags and an error or none, for every file and every size.
pub parse_matroska_tags-Returns :
    (file : Str) (file_size : ℕ) → Returns (parse_matroska_tags file file_size)
unfolding parse_matroska_tags
parse_matroska_tags-Returns file file_size = from_header (read_element_header file 0)
  where
    from_header : (r : HeaderRead) → Returns (after_header file file_size r)
    from_header (failed e) = ((no_tags, some e), refl)
    from_header (got h) = by_test (not (h.id == id_header) || h.is_unknown)
      where
        by_test :
            (t : Bool)
            → Returns (
                if t
                then some (no_tags, some missing_header)
                else walk_segment file file_size
                    (h.head_bytes + h.size)
                    (read_element_header file (h.head_bytes + h.size)))
        by_test true = ((no_tags, some missing_header), refl)
        by_test false =
            walk_segment-Returns file file_size (h.head_bytes + h.size)
              (read_element_header file (h.head_bytes + h.size))
