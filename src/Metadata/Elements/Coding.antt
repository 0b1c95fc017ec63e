-- ===== src/Metadata/Elements/Coding.antt =====
-- Elements written as bytes, as an independent description of what children of
-- internal/metadata/matroska.go reads.
use holodex.Prelude.{
  ℕ, zero, suc, ◌+◌, ◌-◌, ◌*◌, ◌%◌, ◌^◌, ◌≤◌, ◌<◌, ◌≡◌, refl, ap, sym, subst, ◌∙◌, arith, Str, true,
  false, some, List, [], ◌∷◌, ◌++◌, map, ◌==◌, ltb, length, length-append, take, drop, take-append,
  drop-append, All,
}
use holodex.Metadata.Vint.{unknown_size}
use holodex.Metadata.Vint.Encode.{
  Width, bytes_of, tail_of, write_vint, marked, length-big_endian, bytes_of-le,
  read_vint-write_vint,
}
use holodex.Metadata.Elements.{Element, Header, read_header, fitting, children_from, children}

-- An element before it is written: its ID without the marker, and the widths of its two integers.
pub record Written : Type 0 where
  pub id_width : Width
  pub id_value : ℕ
  pub size_width : Width
  pub content : Str

-- Both integers fit in their widths, and the size is not the reserved one.
abbrev pub IsWritable : Written → Type 0
IsWritable e =
    (e.id_value < 2 ^ (7 * bytes_of e.id_width))
    × (length e.content < unknown_size (bytes_of e.size_width))

-- The bytes of an element, before the others.
abbrev pub write : Written → Str → Str
write e rest =
    write_vint e.id_width e.id_value
    ++ (write_vint e.size_width (length e.content) ++ (e.content ++ rest))

abbrev pub write_all : List Written → Str
write_all [] = []
write_all (e ∷ es) = write e (write_all es)

abbrev pub element_of : Written → Element
element_of e = record { id = marked false e.id_width e.id_value; content = e.content }

length-write_vint : (w : Width) (v : ℕ) → length (write_vint w v) ≡ bytes_of w
length-write_vint w v =
    omega (arith, length-big_endian (tail_of w) (v % 256 ^ tail_of w), bytes_of-le w)

drop-write_vint : (w : Width) (v : ℕ) (ys : Str) → drop (bytes_of w) (write_vint w v ++ ys) ≡ ys
drop-write_vint w v ys =
    subst (λ (k : ℕ). drop k (write_vint w v ++ ys) ≡ ys) (length-write_vint w v)
      (drop-append {0} (write_vint w v) ys)

unknown_size-le : (w : Width) → unknown_size (bytes_of w) < 2 ^ (7 * bytes_of w)
unknown_size-le w = ground arith

suc_add : (i j : ℕ) → suc (i + j) ≡ suc i + j
suc_add i j = omega arith

drop_nil : (j : ℕ) → drop {A = ℕ} j [] ≡ []
drop_nil zero = refl
drop_nil (suc j) = refl

drop-add : (i j : ℕ) (xs : Str) → drop (i + j) xs ≡ drop j (drop i xs)
drop-add zero j xs = ap (λ (k : ℕ). drop k xs) (omega arith)
drop-add (suc i) j [] =
    subst (λ (k : ℕ). drop k [] ≡ drop {A = ℕ} j []) (suc_add i j) (sym (drop_nil j))
drop-add (suc i) j (x ∷ xs) =
    subst (λ (k : ℕ). drop k (x ∷ xs) ≡ drop j (drop i xs)) (suc_add i j) (drop-add i j xs)

children_from-first :
    (fuel c : ℕ) (b : Str) (h : Header)
    → fitting (c ∷ b) (read_header (c ∷ b)) ≡ some h
    → children_from (suc fuel) (c ∷ b)
      ≡ (record { id = h.id; content = take h.size (drop h.head_bytes (c ∷ b)) })
        ∷ children_from fuel (drop (h.head_bytes + h.size) (c ∷ b))
unfolding children_from
children_from-first fuel c b h e = rw (e, children_from) refl

module _ (e : Written) (h : IsWritable e) (rest : Str) where
  abbrev header_of : Header
  header_of = record {
    id = marked false e.id_width e.id_value;
    size = length e.content;
    head_bytes = bytes_of e.id_width + bytes_of e.size_width;
    is_unknown = length e.content == unknown_size (bytes_of e.size_width);
  }

  read_header-write : read_header (write e rest) ≡ some header_of
  unfolding read_header
  read_header-write =
      rw
        (
          read_vint-write_vint false e.id_width e.id_value
              (write_vint e.size_width (length e.content) ++ (e.content ++ rest)) h.0,
          drop-write_vint e.id_width e.id_value
              (write_vint e.size_width (length e.content) ++ (e.content ++ rest)),
          read_vint-write_vint true e.size_width (length e.content) (e.content ++ rest)
              (omega (arith, h.1, unknown_size-le e.size_width)),
        )
        refl

  drop-head : drop (bytes_of e.id_width + bytes_of e.size_width) (write e rest) ≡ e.content ++ rest
  drop-head =
      drop-add (bytes_of e.id_width) (bytes_of e.size_width) (write e rest)
      ∙ ap (drop {A = ℕ} (bytes_of e.size_width)) (
          drop-write_vint e.id_width e.id_value
            (write_vint e.size_width (length e.content) ++ (e.content ++ rest)))
      ∙ drop-write_vint e.size_width (length e.content) (e.content ++ rest)

  length-write :
      length (write e rest)
      ≡ bytes_of e.id_width + bytes_of e.size_width + (length e.content + length rest)
  length-write = omega (
    arith,
    length-append {0} (write_vint e.id_width e.id_value)
        (write_vint e.size_width (length e.content) ++ (e.content ++ rest)),
    length-append {0} (write_vint e.size_width (length e.content)) (e.content ++ rest),
    length-append {0} e.content rest,
    length-write_vint e.id_width e.id_value,
    length-write_vint e.size_width (length e.content),
  )

  fitting-header_of : fitting (write e rest) (some header_of) ≡ some header_of
  unfolding fitting
  fitting-header_of = rw (known, room) refl
    where
      known : (length e.content == unknown_size (bytes_of e.size_width)) ≡ false
      known = ground (arith, h.1)

      room :
          ltb
            (length (write e rest) - (bytes_of e.id_width + bytes_of e.size_width))
            (length e.content)
          ≡ false
      room = ground (arith, length-write)

  children_from-write :
      (fuel : ℕ) → children_from (suc fuel) (write e rest) ≡ element_of e ∷ children_from fuel rest
  unfolding children_from
  children_from-write fuel =
      children_from-first fuel _ _ header_of
        (ap (fitting (write e rest)) read_header-write ∙ fitting-header_of)
      ∙ ap
          (λ (xs : Str).
            (record { id = header_of.id; content = take header_of.size xs })
            ∷ children_from fuel (drop (header_of.head_bytes + header_of.size) (write e rest)))
          drop-head
      ∙ ap
          (λ (xs : Str).
            (record { id = header_of.id; content = xs })
            ∷ children_from fuel (drop (header_of.head_bytes + header_of.size) (write e rest)))
          (take-append {0} e.content rest)
      ∙ ap (λ (xs : Str). element_of e ∷ children_from fuel xs)
          (drop-add header_of.head_bytes header_of.size (write e rest)
            ∙ ap (drop (length e.content)) drop-head
            ∙ drop-append {0} e.content rest)

pub children_from-write_all :
    (fuel : ℕ) (es : List Written)
    → All IsWritable es
    → length (write_all es) ≤ fuel
    → children_from fuel (write_all es) ≡ map element_of es
unfolding children_from
children_from-write_all fuel [] h k = refl
children_from-write_all zero (e ∷ es) (a, h) k =
    absurd (omega (arith, length-write e a (write_all es), bytes_of-le e.id_width))
children_from-write_all (suc fuel) (e ∷ es) (a, h) k =
    children_from-write e a (write_all es) fuel
    ∙ ap (λ (r : List Element). element_of e ∷ r)
        (children_from-write_all fuel es h
          (omega (arith, length-write e a (write_all es), bytes_of-le e.id_width)))

-- children gives back every element that is written with its integers in their widths, in the order
-- written: its ID with the length marker, and its content byte for byte.
pub children-write_all :
    (es : List Written) → All IsWritable es → children (write_all es) ≡ map element_of es
unfolding children
children-write_all es h = children_from-write_all (length (write_all es)) es h (omega arith)
