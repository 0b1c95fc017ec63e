-- ===== src/Metadata/Tags/Sizes.antt =====
-- The texts that parseTags of internal/metadata/matroska.go takes from a payload.
use holodex.Prelude.{
  ℕ, zero, suc, ◌+◌, ◌≤◌, arith, Str, Option, none, some, List, [], ◌∷◌, ◌++◌, map, length, take,
  drop, length-drop, if_both, All, ◌==◌,
}
use holodex.Metadata.Elements.{
  Element, Header, read_header, fitting, children_from, children, find_child, first_child,
}
use holodex.Metadata.Tags.{
  SimpleTag, Target, Draft, named, gather, gather_all, under, new_draft, tags_of, parse_tags,
  id_tag, id_targets, id_simple_tag, id_tag_name, id_tag_string,
}

length-take_le : (k : ℕ) (xs : Str) → length (take k xs) ≤ length xs
length-take_le zero xs = omega arith
length-take_le (suc k) [] = omega arith
length-take_le (suc k) (x ∷ xs) = omega (arith, length-take_le k xs)

pub All-append :
    {A : Type 0} (P : A → Type 0) (xs ys : List A) → All P xs → All P ys → All P (xs ++ ys)
All-append P [] ys h k = k
All-append P (x ∷ xs) ys (a, h) k = (a, All-append P xs ys h k)

module _ (n : ℕ) where
  abbrev IsShort : Element → Type 0
  IsShort e = length e.content ≤ n

  abbrev AreShort : Str × Str → Type 0
  AreShort p = (length p.0 ≤ n) × (length p.1 ≤ n)

  abbrev OptShort : Option Str → Type 0
  OptShort none = Unit
  OptShort (some s) = length s ≤ n

  -- A tag whose two texts have at most n bytes.
  abbrev pub TagShort : SimpleTag → Type 0
  TagShort t = (length t.name ≤ n) × (length t.value ≤ n)

  children_from-Short : (fuel : ℕ) (b : Str) → length b ≤ n → All IsShort (children_from fuel b)
  unfolding children_from
  children_from-Short fuel [] h = tt
  children_from-Short zero (c ∷ b) h = tt
  children_from-Short (suc fuel) (c ∷ b) h =
      by_first (fitting (c ∷ b) (read_header (c ∷ b))) (λ ys k. children_from-Short fuel ys k)
    where
      by_first :
          (o : Option Header)
          → ((ys : Str) → length ys ≤ n → All IsShort (children_from fuel ys))
          → All IsShort (elim o [
            | none ↦ []
            | some h ↦
                (record { id = h.id; content = take h.size (drop h.head_bytes (c ∷ b)) })
                ∷ children_from fuel (drop (h.head_bytes + h.size) (c ∷ b))
          ])
      by_first none rest = tt
      by_first (some hd) rest = (
        omega (
          arith,
          length-take_le hd.size (drop hd.head_bytes (c ∷ b)),
          length-drop {0} hd.head_bytes (c ∷ b),
        ),
        rest (drop (hd.head_bytes + hd.size) (c ∷ b))
            (omega (arith, length-drop {0} (hd.head_bytes + hd.size) (c ∷ b))),
      )

  children-Short : (b : Str) → length b ≤ n → All IsShort (children b)
  unfolding children
  children-Short b h = children_from-Short (length b) b h

  find_child-Short : (id : ℕ) (es : List Element) → All IsShort es → OptShort (find_child id es)
  unfolding find_child
  find_child-Short id [] h = tt
  find_child-Short id (e ∷ es) (a, h) = if_both OptShort (e.id == id) a (find_child-Short id es h)

  first_child-Short : (b : Str) (id : ℕ) → length b ≤ n → OptShort (first_child b id)
  unfolding first_child
  first_child-Short b id h = find_child-Short id (children b) (children-Short b h)

  named-Short : (a b : Option Str) → OptShort a → OptShort b → All AreShort (named a b)
  named-Short (some a) (some b) h k = ((h, k), tt)
  named-Short (some a) none h k = tt
  named-Short none b h k = tt

  abbrev SimpleShort : Draft → Type 0
  SimpleShort d = All AreShort d.simple

  gather-Short :
      (c : Element) (d : Draft)
      → IsShort c
      → All AreShort d.simple
      → All AreShort (gather c d).simple
  gather-Short c d h k = if_both SimpleShort (c.id == id_targets) k (
      if_both SimpleShort (c.id == id_simple_tag)
        (All-append AreShort d.simple _ k (
          named-Short (first_child c.content id_tag_name) (first_child c.content id_tag_string)
            (first_child-Short c.content id_tag_name h)
            (first_child-Short c.content id_tag_string h)))
        k)

  gather_all-Short :
      (cs : List Element) (d : Draft)
      → All IsShort cs
      → All AreShort d.simple
      → All AreShort (gather_all cs d).simple
  unfolding gather_all
  gather_all-Short [] d h k = k
  gather_all-Short (c ∷ cs) d (a, h) k = gather_all-Short cs (gather c d) h (gather-Short c d a k)

  under-Short :
      (g : Target) (ps : List (Str × Str)) → All AreShort ps → All TagShort (map (under g) ps)
  under-Short g [] h = tt
  under-Short g (p ∷ ps) (a, h) = (a, under-Short g ps h)

  tags_of-Short : (es : List Element) → All IsShort es → All TagShort (tags_of es)
  unfolding tags_of
  tags_of-Short [] h = tt
  tags_of-Short (e ∷ es) (a, h) =
      if_both (All TagShort) (e.id == id_tag)
        (All-append TagShort _ _
          (under-Short drafts.target drafts.simple
            (gather_all-Short (children e.content) new_draft (children-Short e.content a) tt))
          (tags_of-Short es h))
        (tags_of-Short es h)
    where
      drafts : Draft
      drafts = gather_all (children e.content) new_draft

  pub parse_tags-Short : (b : Str) → length b ≤ n → All TagShort (parse_tags b)
  unfolding parse_tags
  parse_tags-Short b h = tags_of-Short (children b) (children-Short b h)
