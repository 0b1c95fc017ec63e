-- ===== src/Writeback/Count.antt =====
-- Lemmas on the SQL statements: what each does to a count of rows.
use holodex.Prelude.{
  suc, ◌+◌, ◌≤◌, ◌≡◌, refl, sym, subst, arith, Bool, true, false, ◌||◌, Option, none, some, List,
  [], ◌∷◌, ◌++◌, if◌then◌else◌, inl, inr, In, ◌&&◌,
}
use holodex.Writeback.Table.{Row, count, has, select, delete_where, update_where, first}

pub count-append :
    (p : Row → Bool) (rs ss : List Row) → count p (rs ++ ss) ≡ count p rs + count p ss
unfolding count
count-append p [] ss = omega arith
count-append p (r ∷ rs) ss = omega (arith, count-append p rs ss)

pub count-delete_where-le :
    (p q : Row → Bool) (rs : List Row) → count p (delete_where q rs) ≤ count p rs
unfolding count delete_where
count-delete_where-le p q [] = omega arith
count-delete_where-le p q (r ∷ rs) = ground (arith, count-delete_where-le p q rs)

-- No row is left that the statement deletes.
pub count-delete_where-zero :
    (p q : Row → Bool) (rs : List Row)
    → ((r : Row) → p r ≡ true → q r ≡ true)
    → count p (delete_where q rs) ≡ 0
unfolding count delete_where
count-delete_where-zero p q [] h = refl
count-delete_where-zero p q (r ∷ rs) h = ground (arith, count-delete_where-zero p q rs h, h r)

pub count-update_where-le :
    (p q : Row → Bool) (f : Row → Row) (rs : List Row)
    → ((r : Row) → p (f r) ≡ true → p r ≡ true)
    → count p (update_where q f rs) ≤ count p rs
unfolding count update_where
count-update_where-le p q f [] h = omega arith
count-update_where-le p q f (r ∷ rs) h = ground (arith, count-update_where-le p q f rs h, h r)

pub count_of_no_row : (p : Row → Bool) (rs : List Row) → has p rs ≡ false → count p rs ≡ 0
unfolding count has
count_of_no_row p [] h = refl
count_of_no_row p (r ∷ rs) h = ground (arith, count_of_no_row p rs)

-- A condition that two others cover counts no more than both.
pub count_cover :
    (p q s : Row → Bool) (rs : List Row)
    → ((r : Row) → p r ≡ true → (q r || s r) ≡ true)
    → count p rs ≤ count q rs + count s rs
unfolding count
count_cover p q s [] h = omega arith
count_cover p q s (r ∷ rs) h = ground (arith, count_cover p q s rs h, h r)

pub count-snoc :
    (p : Row → Bool) (rs : List Row) (r : Row)
    → count p (rs ++ r ∷ []) ≡ count p rs + (if p r then 1 else 0)
unfolding count
count-snoc p rs r = omega (arith, count-append p rs (r ∷ []))

-- A row that is there satisfies the condition.
abbrev pub Found : (Row → Bool) → Option Row → Type 0
Found p none = Unit
Found p (some r) = p r ≡ true

-- The first row that a DELETE finds is gone.
pub count-delete_where-first :
    (p q : Row → Bool) (rs : List Row) (r : Row)
    → first (select q rs) ≡ some r
    → p r ≡ true
    → suc (count p (delete_where q rs)) ≤ count p rs
unfolding count delete_where select
count-delete_where-first p q [] r e h = absurd (cc)
count-delete_where-first p q (s ∷ rs) r e h =
    by_test (q s) e (λ e'. count-delete_where-first p q rs r e' h)
  where
    by_test :
        (t : Bool)
        → first (if t then s ∷ select q rs else select q rs) ≡ some r
        → (first (select q rs) ≡ some r → suc (count p (delete_where q rs)) ≤ count p rs)
        → suc (count p (if t then delete_where q rs else s ∷ delete_where q rs))
          ≤ (if p s then 1 else 0) + count p rs
    by_test true e later =
        let same = subst (Found p) (sym e) h in ground (arith, same, count-delete_where-le p q rs)
    by_test false e later = omega (arith, later e)

-- Two conditions that exclude each other, under one that both imply.
pub count_disjoint :
    (p q s : Row → Bool) (rs : List Row)
    → ((r : Row) → (q r ≡ true → p r ≡ true) × ((s r ≡ true → p r ≡ true) × (q r && s r ≡ false)))
    → count q rs + count s rs ≤ count p rs
unfolding count
count_disjoint p q s [] h = omega arith
count_disjoint p q s (r ∷ rs) h = let a = h r in let b = count_disjoint p q s rs h in ground arith

pub count_pos : (p : Row → Bool) (rs : List Row) (r : Row) → In r rs → p r ≡ true → 1 ≤ count p rs
unfolding count
count_pos p [] r i h = absurd i
count_pos p (s ∷ rs) r (inl e) h = let a = subst (λ (x : Row). p x ≡ true) (sym e) h in ground arith
count_pos p (s ∷ rs) r (inr i) h = omega (arith, count_pos p rs r i h)

-- An update counts what was counted before, and the rows that it makes count.
pub count-update_where-cover :
    (p q s : Row → Bool) (f : Row → Row) (rs : List Row)
    → ((r : Row) → q r ≡ true → p (f r) ≡ true → (p r || s r) ≡ true)
    → count p (update_where q f rs) ≤ count p rs + count s rs
unfolding count update_where
count-update_where-cover p q s f [] h = omega arith
count-update_where-cover p q s f (r ∷ rs) h =
    let a = h r in let b = count-update_where-cover p q s f rs h in ground arith

-- What a DELETE leaves of a condition, when the rows it leaves satisfy another one.
pub count-delete_where-cover :
    (p q s : Row → Bool) (rs : List Row)
    → ((r : Row) → p r ≡ true → (q r || s r) ≡ true)
    → count p (delete_where q rs) ≤ count s rs
unfolding count delete_where
count-delete_where-cover p q s [] h = omega arith
count-delete_where-cover p q s (r ∷ rs) h =
    let a = h r in let b = count-delete_where-cover p q s rs h in ground arith

pub count-delete_where-snoc :
    (p q : Row → Bool) (rs : List Row) (r : Row)
    → count p (delete_where q (rs ++ r ∷ [])) ≤ count p (delete_where q rs) + (if p r then 1 else 0)
unfolding count delete_where
count-delete_where-snoc p q [] r = ground arith
count-delete_where-snoc p q (s ∷ rs) r = let a = count-delete_where-snoc p q rs r in ground arith
