-- ===== src/Query/Result/Owner.antt =====
-- The gate on conditions that only the owner may search by.
pub mod Within
use holodex.Prelude.{
  ◌≡◌, refl, ap, subst, sym, Bool, true, false, ◌⊎◌, inl, inr, List, [], ◌∷◌, ◌++◌, All, In, All-In,
  In-append_right, ◌||◌, if◌then◌else◌,
}
use holodex.Query.Tree.{Cond, Node, conds, cond_owner_only, some_owner_only, owner_only}
use holodex.Query.Result.{Code, Result, ok, fail, first_owner_only, check_owner}
use holodex.Query.Result.Owner.Within.{
  Occurs, First, IsOwned, Heads, Heads-First, Occurs-In, owned, public,
}

-- What the gate answers about a query: it passes, and no condition anywhere in the tree is the owner's;
-- or it is an error at the first one that is.
abbrev pub Gated : Node → Bool → Result (Unit {0}) → Type 0
Gated n o r =
    ((o ≡ false) × (r ≡ ok tt) × ((c : Cond) → Occurs c n → ¬ IsOwned c))
    ⊎ ((o ≡ true) × ((c : Cond) × (First c n × (r ≡ fail Code.owner_only c.pos c.stop))))

-- The same about a list of conditions
abbrev Listed : List Cond → Bool → Result (Unit {0}) → Type 0
Listed cs o r =
    ((o ≡ false) × (r ≡ ok tt) × All (λ c. ¬ IsOwned c) cs)
    ⊎ ((o ≡ true) × ((c : Cond) × (Heads c cs × (r ≡ fail Code.owner_only c.pos c.stop))))

first_owner_only-Listed : (cs : List Cond) → Listed cs (some_owner_only cs) (first_owner_only cs)
unfolding first_owner_only some_owner_only
first_owner_only-Listed [] = inl (refl, refl, tt)
first_owner_only-Listed (c ∷ cs) = by_head (cond_owner_only c) refl (first_owner_only-Listed cs)
  where
    later :
        ¬ IsOwned c
        → Listed cs (some_owner_only cs) (first_owner_only cs)
        → Listed (c ∷ cs) (some_owner_only cs) (first_owner_only cs)
    later e (inl (o, r, h)) = inl (o, r, (e, h))
    later e (inr (o, (d, (h, r)))) = inr (o, (d, (inr (e, h), r)))

    by_head :
        (b : Bool)
        → cond_owner_only c ≡ b
        → Listed cs (some_owner_only cs) (first_owner_only cs)
        → Listed
            (c ∷ cs)
            (b || some_owner_only cs)
            (if b then fail Code.owner_only c.pos c.stop else first_owner_only cs)
    by_head true e h = inr (refl, (c, (inl (refl, owned c e), refl)))
    by_head false e h = later (public c e) h

Listed-Gated : (n : Node) (o : Bool) (r : Result (Unit {0})) → Listed (conds n) o r → Gated n o r
Listed-Gated n o r (inl (e, k, h)) =
    inl (e, k, λ c i. All-In (λ c. ¬ IsOwned c) (conds n) c h (Occurs-In c n i))
Listed-Gated n o r (inr (e, (c, (h, k)))) = inr (e, (c, (Heads-First c n h, k)))

-- For a caller who is not the owner, and every query: the check passes where OwnerOnly says no, and then
-- no condition anywhere in the tree, also under a NOT, is on a field of the owner (matched, watched,
-- plays, played) or marked as the owner's. Otherwise it is an error at the first such condition of the
-- query in source order.
pub check_owner-Gated : (n : Node) → Gated n (owner_only n) (check_owner false n)
unfolding owner_only check_owner
check_owner-Gated n =
    Listed-Gated n (owner_only n) (check_owner false n) (first_owner_only-Listed (conds n))
