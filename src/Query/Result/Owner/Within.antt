-- ===== src/Query/Result/Owner/Within.antt =====
-- The conditions that stand in a query's tree, and those that are the owner's.
use holodex.Prelude.{
  ◌≡◌, sym, subst, arith, Str, ◌=s◌, =s_refl, eq_of_=s, true, false, Bool-cases, ◌⊎◌, inl, inr,
  List, [], ◌∷◌, ◌++◌, In, All, All-In, In-append_left, In-append_right,
}
use holodex.Query.Tree.{
  Cond, Node, any, all, not, cond, word, Nodes, nil, cons, conds, conds_of, cond_owner_only,
  field_matched, field_watched, field_plays, field_played,
}

-- The condition stands in the tree, under whatever nodes.
unfoldable mutual
  pub Occurs : Cond → Node → Type 0
  Occurs c (any ns) = OccursIn c ns
  Occurs c (all ns) = OccursIn c ns
  Occurs c (not n) = Occurs c n
  Occurs c (cond d) = d ≡ c
  Occurs c (word w) = ⊥

  pub OccursIn : Cond → Nodes → Type 0
  OccursIn c nil = ⊥
  OccursIn c (cons n ns) = Occurs c n ⊎ OccursIn c ns

-- The condition is on one of the owner's fields, or marked as the owner's.
pub data IsOwned (c : Cond) : Type 0 where
  on_matched : c.field ≡ field_matched → IsOwned c
  on_watched : c.field ≡ field_watched → IsOwned c
  on_plays : c.field ≡ field_plays → IsOwned c
  on_played : c.field ≡ field_played → IsOwned c
  marked : c.owner ≡ true → IsOwned c

pub owned : (c : Cond) → cond_owner_only c ≡ true → IsOwned c
unfolding cond_owner_only
owned c h = elim (Bool-cases (c.field =s field_matched)) [
  | inl e ↦ on_matched (eq_of_=s c.field field_matched e)
  | inr e ↦ elim (Bool-cases (c.field =s field_watched)) [
    | inl f ↦ on_watched (eq_of_=s c.field field_watched f)
    | inr f ↦ elim (Bool-cases (c.field =s field_plays)) [
      | inl g ↦ on_plays (eq_of_=s c.field field_plays g)
      | inr g ↦ elim (Bool-cases (c.field =s field_played)) [
        | inl k ↦ on_played (eq_of_=s c.field field_played k)
        | inr k ↦ marked (ground arith)
      ]
    ]
  ]
]

same_text : (a b : Str) → a ≡ b → (a =s b) ≡ true
same_text a b e = subst (λ (x : Str). (x =s b) ≡ true) (sym e) (=s_refl b)

IsOwned-gated : (c : Cond) → IsOwned c → cond_owner_only c ≡ true
unfolding cond_owner_only
IsOwned-gated c (on_matched e) = let t = same_text c.field field_matched e in ground arith
IsOwned-gated c (on_watched e) = let t = same_text c.field field_watched e in ground arith
IsOwned-gated c (on_plays e) = let t = same_text c.field field_plays e in ground arith
IsOwned-gated c (on_played e) = let t = same_text c.field field_played e in ground arith
IsOwned-gated c (marked e) = ground arith

pub public : (c : Cond) → cond_owner_only c ≡ false → ¬ IsOwned c
public c e o = let t = IsOwned-gated c o in cc

mutual
  unfolding Occurs conds

  pub Occurs-In : (c : Cond) (n : Node) → Occurs c n → In c (conds n)
  Occurs-In c (any ns) h = OccursIn-In c ns h
  Occurs-In c (all ns) h = OccursIn-In c ns h
  Occurs-In c (not n) h = Occurs-In c n h
  Occurs-In c (cond d) h = inl h
  Occurs-In c (word w) h = absurd h

  OccursIn-In : (c : Cond) (ns : Nodes) → OccursIn c ns → In c (conds_of ns)
  OccursIn-In c nil h = absurd h
  OccursIn-In c (cons n ns) (inl h) = In-append_left c (conds n) (conds_of ns) (Occurs-In c n h)
  OccursIn-In c (cons n ns) (inr h) = In-append_right c (conds n) (conds_of ns) (OccursIn-In c ns h)

-- The condition is the owner's, and stands before all others in the tree that are.
unfoldable mutual
  pub First : Cond → Node → Type 0
  First c (any ns) = FirstIn c ns
  First c (all ns) = FirstIn c ns
  First c (not n) = First c n
  First c (cond d) = (d ≡ c) × IsOwned c
  First c (word w) = ⊥

  pub FirstIn : Cond → Nodes → Type 0
  FirstIn c nil = ⊥
  FirstIn c (cons n ns) = First c n ⊎ (((d : Cond) → Occurs d n → ¬ IsOwned d) × FirstIn c ns)

-- The same of a list
abbrev pub Heads : Cond → List Cond → Type 0
Heads c [] = ⊥
Heads c (x ∷ xs) = ((x ≡ c) × IsOwned c) ⊎ ((¬ IsOwned x) × Heads c xs)

Heads-append :
    (c : Cond) (xs ys : List Cond)
    → Heads c (xs ++ ys)
    → Heads c xs ⊎ (All (λ d. ¬ IsOwned d) xs × Heads c ys)
Heads-append c [] ys h = inr (tt, h)
Heads-append c (x ∷ xs) ys (inl h) = inl (inl h)
Heads-append c (x ∷ xs) ys (inr (e, h)) = elim (Heads-append c xs ys h) [
  | inl k ↦ inl (inr (e, k))
  | inr (p, k) ↦ inr ((e, p), k)
]

mutual
  unfolding First Occurs conds

  pub Heads-First : (c : Cond) (n : Node) → Heads c (conds n) → First c n
  Heads-First c (any ns) h = Heads-FirstIn c ns h
  Heads-First c (all ns) h = Heads-FirstIn c ns h
  Heads-First c (not n) h = Heads-First c n h
  Heads-First c (cond d) (inl h) = h
  Heads-First c (cond d) (inr h) = absurd h.1
  Heads-First c (word w) h = absurd h

  Heads-FirstIn : (c : Cond) (ns : Nodes) → Heads c (conds_of ns) → FirstIn c ns
  Heads-FirstIn c nil h = absurd h
  Heads-FirstIn c (cons n ns) h = elim (Heads-append c (conds n) (conds_of ns) h) [
    | inl k ↦ inl (Heads-First c n k)
    | inr (p, k) ↦
        inr (λ d i. All-In (λ d. ¬ IsOwned d) (conds n) d p (Occurs-In d n i), Heads-FirstIn c ns k)
  ]
