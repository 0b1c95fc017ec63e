-- ===== src/Metadata/Elements/Enough.antt =====
-- A round for each byte is enough for children of internal/metadata/matroska.go.
use holodex.Prelude.{
  ℕ, zero, suc, ◌+◌, ◌-◌, ◌≤◌, ◌≡◌, refl, ap, arith, Str, true, false, ◌||◌, Option, none, some,
  List, [], ◌∷◌, ltb, length, take, drop, length-drop, if_both,
}
use holodex.Metadata.Vint.{read_vint}
use holodex.Metadata.Vint.Bounds.{Fits, read_vint-Fits}
use holodex.Metadata.Elements.{
  Element, Header, identified, sized, read_header, fitting, children_from, children,
}

-- A header takes a byte at least.
abbrev Moves : Option Header → Type 0
Moves none = Unit
Moves (some h) = 1 ≤ h.head_bytes

sized-Moves : (id n : ℕ) (o : Option (ℕ × ℕ)) → 1 ≤ n → Moves (sized id n o)
sized-Moves id n none h = tt
sized-Moves id n (some (size, m)) h = omega arith

identified-Moves : (b c : Str) (o : Option (ℕ × ℕ)) → Fits c o → Moves (identified b o)
unfolding identified
identified-Moves b c none h = tt
identified-Moves b c (some (id, n)) h = sized-Moves id n (read_vint (drop n b) true) h.0

fitting-Moves : (b : Str) (o : Option Header) → Moves o → Moves (fitting b o)
unfolding fitting
fitting-Moves b none h = tt
fitting-Moves b (some hd) h =
    if_both Moves (hd.is_unknown || ltb (length b - hd.head_bytes) hd.size) tt h

read_header-Moves : (b : Str) → Moves (read_header b)
unfolding read_header
read_header-Moves b = identified-Moves b b (read_vint b false) (read_vint-Fits b false)

same_rounds :
    (f g : ℕ) (b : Str) → length b ≤ f → length b ≤ g → children_from f b ≡ children_from g b
unfolding children_from
same_rounds f g [] h k = refl
same_rounds zero g (c ∷ b) h k = absurd (omega arith)
same_rounds (suc f) zero (c ∷ b) h k = absurd (omega arith)
same_rounds (suc f) (suc g) (c ∷ b) h k =
    by_first (fitting (c ∷ b) (read_header (c ∷ b)))
      (fitting-Moves (c ∷ b) (read_header (c ∷ b)) (read_header-Moves (c ∷ b)))
      (λ rest i j. same_rounds f g rest i j)
  where
    element : Header → Element
    element hd = record { id = hd.id; content = take hd.size (drop hd.head_bytes (c ∷ b)) }

    rest_of : Header → Str
    rest_of hd = drop (hd.head_bytes + hd.size) (c ∷ b)

    by_first :
        (o : Option Header)
        → Moves o
        → ((rest : Str)
            → length rest ≤ f
            → length rest ≤ g
            → children_from f rest ≡ children_from g rest)
        → (elim o [ none ↦ [] | some hd ↦ element hd ∷ children_from f (rest_of hd) ])
          ≡ (elim o [ none ↦ [] | some hd ↦ element hd ∷ children_from g (rest_of hd) ])
    by_first none m later = refl
    by_first (some hd) m later =
        let shorter = length-drop {0} (hd.head_bytes + hd.size) (c ∷ b) in
        ap (λ (es : List Element). element hd ∷ es)
          (later (rest_of hd) (omega (arith, shorter, m)) (omega (arith, shorter, m)))

-- Any number of rounds that is not below the number of bytes gives the elements that children gives.
pub children_from-children :
    (fuel : ℕ) (b : Str) → length b ≤ fuel → children_from fuel b ≡ children b
unfolding children
children_from-children fuel b h = same_rounds fuel (length b) b h (omega arith)
