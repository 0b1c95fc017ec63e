-- ===== src/Writeback/Status/Sorted.antt =====
-- Rows in the order of their updates.
use holodex.Prelude.{
  ◌≡◌, ◌↔◌, refl, ap, ◌∙◌, arith, Bool, true, false, ◌||◌, List, [], ◌∷◌, if◌then◌else◌, if_both,
  In, All, inl, inr,
}
use holodex.Writeback.Table.{Row, has}
use holodex.Writeback.Status.{updated_before, place_row, by_update}

-- A condition holds of some row of a sorted list as of the list.
has-place_row :
    (p : Row → Bool) (r : Row) (ss : List Row) → has p (place_row r ss) ≡ (p r || has p ss)
unfolding has place_row
has-place_row p r [] = ground arith
has-place_row p r (s ∷ ss) = let a = has-place_row p r ss in ground arith

pub has-by_update : (p : Row → Bool) (rs : List Row) → has p (by_update rs) ≡ has p rs
unfolding has by_update
has-by_update p [] = refl
has-by_update p (r ∷ rs) =
    has-place_row p r (by_update rs) ∙ ap (λ (b : Bool). p r || b) (has-by_update p rs)

-- No row of the list was updated before r.
abbrev pub NoneBefore : Row → List Row → Type 0
NoneBefore r ss = All (λ s. updated_before s r ≡ false) ss

abbrev pub IsSorted : List Row → Type 0
IsSorted [] = Unit
IsSorted (r ∷ rs) = NoneBefore r rs × IsSorted rs

not_after :
    (a b c : Row)
    → updated_before b a ≡ false
    → updated_before c b ≡ false
    → updated_before c a ≡ false
not_after a b c h k = ground arith

NoneBefore-trans :
    (a b : Row) (ss : List Row) → updated_before b a ≡ false → NoneBefore b ss → NoneBefore a ss
NoneBefore-trans a b [] h k = tt
NoneBefore-trans a b (c ∷ ss) h (k, rest) = (not_after a b c h k, NoneBefore-trans a b ss h rest)

place_row-NoneBefore :
    (a r : Row) (ss : List Row)
    → updated_before r a ≡ false
    → NoneBefore a ss
    → NoneBefore a (place_row r ss)
unfolding place_row
place_row-NoneBefore a r [] h k = (h, tt)
place_row-NoneBefore a r (s ∷ ss) h (k, rest) =
    if_both (NoneBefore a) (updated_before s r) (k, place_row-NoneBefore a r ss h rest)
      (h, (k, rest))

place_row-IsSorted : (r : Row) (ss : List Row) → IsSorted ss → IsSorted (place_row r ss)
unfolding place_row
place_row-IsSorted r [] h = (tt, tt)
place_row-IsSorted r (s ∷ ss) (a, h) = by_test (updated_before s r) refl (place_row-IsSorted r ss h)
  where
    by_test :
        (b : Bool)
        → updated_before s r ≡ b
        → IsSorted (place_row r ss)
        → IsSorted (if b then s ∷ place_row r ss else r ∷ s ∷ ss)
    by_test true e k = (place_row-NoneBefore s r ss (ground arith) a, k)
    by_test false e k = ((e, NoneBefore-trans r s ss e a), (a, h))

pub by_update-IsSorted : (rs : List Row) → IsSorted (by_update rs)
unfolding by_update
by_update-IsSorted [] = tt
by_update-IsSorted (r ∷ rs) = place_row-IsSorted r (by_update rs) (by_update-IsSorted rs)

In-place_row : (x r : Row) (ss : List Row) → In x (place_row r ss) ↔ In x (r ∷ ss)
unfolding place_row
In-place_row x r [] = (λ i. i, λ i. i)
In-place_row x r (s ∷ ss) = by_test (updated_before s r) (In-place_row x r ss)
  where
    by_test :
        (b : Bool)
        → In x (place_row r ss) ↔ In x (r ∷ ss)
        → In x (if b then s ∷ place_row r ss else r ∷ s ∷ ss) ↔ In x (r ∷ s ∷ ss)
    by_test true h = (
      λ i. elim i [
        | inl e ↦ inr (inl e)
        | inr j ↦ elim (h.0 j) [ inl e ↦ inl e | inr k ↦ inr (inr k) ]
      ],
      λ i. elim i [
        | inl e ↦ inr (h.1 (inl e))
        | inr (inl e) ↦ inl e
        | inr (inr j) ↦ inr (h.1 (inr j))
      ],
    )
    by_test false h = (λ i. i, λ i. i)

pub In-by_update : (x : Row) (rs : List Row) → In x (by_update rs) ↔ In x rs
unfolding by_update
In-by_update x [] = (λ i. i, λ i. i)
In-by_update x (r ∷ rs) =
    let p = In-place_row x r (by_update rs) in
    let q = In-by_update x rs in
    (
      λ i. elim (p.0 i) [ inl e ↦ inl e | inr j ↦ inr (q.0 j) ],
      λ i. p.1 (elim i [ inl e ↦ inl e | inr j ↦ inr (q.1 j) ]),
    )
