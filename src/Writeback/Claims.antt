-- ===== src/Writeback/Claims.antt =====
-- What claimNext of internal/repo/writequeue.go picks: the oldest job whose video has none running.
use holodex.Prelude.{
  ℕ, suc, ◌≡◌, refl, subst, arith, Bool, true, false, Option, none, some, List, [], ◌∷◌,
  if◌then◌else◌, In, inl, inr, Bool-cases,
}
use holodex.Writeback.Table.{
  Kind, Row, Table, select, oldest, earlier, comes_before, update_where, has_id,
}
use holodex.Writeback.Queue.{claimable, claim_row, claim_next, mark_running}

-- The rows that a SELECT finds are rows of the table for which its condition holds.
pub In-select :
    (p : Row → Bool) (rs : List Row) (r : Row) → In r (select p rs) → In r rs × (p r ≡ true)
unfolding select
In-select p [] r i = absurd i
In-select p (s ∷ rs) r i = by_test (p s) refl i (λ j. In-select p rs r j)
  where
    by_test :
        (t : Bool)
        → p s ≡ t
        → In r (if t then s ∷ select p rs else select p rs)
        → (In r (select p rs) → In r rs × (p r ≡ true))
        → In r (s ∷ rs) × (p r ≡ true)
    by_test true e (inl same) later = (inl same, subst (λ (x : Row). p x ≡ true) same e)
    by_test true e (inr j) later = let a = later j in (inr a.0, a.1)
    by_test false e j later = let a = later j in (inr a.0, a.1)

-- A SELECT finds every row of the table for which its condition holds.
select-In : (p : Row → Bool) (rs : List Row) (r : Row) → In r rs → p r ≡ true → In r (select p rs)
unfolding select
select-In p [] r i h = absurd i
select-In p (s ∷ rs) r i h = by_test (p s) refl i (λ j. select-In p rs r j h)
  where
    by_test :
        (t : Bool)
        → p s ≡ t
        → In r (s ∷ rs)
        → (In r rs → In r (select p rs))
        → In r (if t then s ∷ select p rs else select p rs)
    by_test true e (inl same) later = inl same
    by_test true e (inr j) later = inr (later j)
    by_test false e (inl same) later =
        let a = subst (λ (x : Row). p x ≡ false) same e in absurd (cc)
    by_test false e (inr j) later = later j

irrefl_before : (r : Row) → comes_before r r ≡ false
irrefl_before r = ground arith

asym_before : (r s : Row) → comes_before r s ≡ true → comes_before s r ≡ false
asym_before r s h = ground arith

trans_before :
    (x r s : Row) → comes_before x s ≡ false → comes_before s r ≡ false → comes_before x r ≡ false
trans_before x r s h k = ground arith

-- The row that ORDER BY enqueued_at, id LIMIT 1 leaves.
abbrev pub Oldest : List Row → Option Row → Type 0
Oldest rs none = rs ≡ []
Oldest rs (some r) = In r rs × ((s : Row) → In s rs → comes_before s r ≡ false)

oldest-Oldest : (rs : List Row) → Oldest rs (oldest rs)
unfolding oldest
oldest-Oldest [] = refl
oldest-Oldest (r ∷ rs) = by_rest (oldest rs) (oldest-Oldest rs)
  where
    by_test :
        (m : Row) (t : Bool)
        → comes_before m r ≡ t
        → In m rs
        → ((s : Row) → In s rs → comes_before s m ≡ false)
        → Oldest (r ∷ rs) (some (if t then m else r))
    by_test m true e i low = (
      inr i,
      λ s j. elim j [
        | inl same ↦ subst (λ (x : Row). comes_before x m ≡ false) same (asym_before m r e)
        | inr k ↦ low s k
      ],
    )
    by_test m false e i low = (
      inl refl,
      λ s j. elim j [
        | inl same ↦ subst (λ (x : Row). comes_before x r ≡ false) same (irrefl_before r)
        | inr k ↦ trans_before s r m (low s k) e
      ],
    )

    by_rest : (o : Option Row) → Oldest rs o → Oldest (r ∷ rs) (some (earlier r o))
    by_rest none e = (
      inl refl,
      λ s j. elim j [
        | inl same ↦ subst (λ (x : Row). comes_before x r ≡ false) same (irrefl_before r)
        | inr k ↦ absurd (subst (In s) e k)
      ],
    )
    by_rest (some m) (i, low) = by_test m (comes_before m r) refl i low

-- What a claim returns. Without a job, no row was claimable, and the table is as it was. With one, a
-- claimable row of the table, which no claimable row comes before, was marked running with one more attempt.
abbrev pub Claimed : (Kind → Bool) → ℕ → Table → Option Row × Table → Type 0
Claimed kinds now t (none, t') =
    ((r : Row) → In r t.rows → claimable kinds t.rows r ≡ false) × (t' ≡ t)
Claimed kinds now t (some job, t') =
    (r : Row) × (In r t.rows
      × ((claimable kinds t.rows r ≡ true)
          × (((s : Row) → In s t.rows → claimable kinds t.rows s ≡ true → comes_before s r ≡ false)
              × ((job ≡ record r { attempts = suc r.attempts })
                  × (t' ≡ record t {
                    rows = update_where (has_id r.id) (mark_running (suc r.attempts) now) t.rows;
                  })))))

-- claimNext returns the oldest job of its lane whose video has no job running, with its attempts
-- counted, and marks that row; when it returns none, there is no such job, and nothing changes.
pub claim_next-Claimed :
    (kinds : Kind → Bool) (now : ℕ) (t : Table) → Claimed kinds now t (claim_next kinds now t)
unfolding claim_next
claim_next-Claimed kinds now t = by_oldest (oldest rows) (oldest-Oldest rows)
  where
    rows : List Row
    rows = select (claimable kinds t.rows) t.rows

    by_oldest :
        (o : Option Row)
        → Oldest (select (claimable kinds t.rows) t.rows) o
        → Claimed kinds now t (claim_row o now t)
    by_oldest none e = (
      λ r i. elim (Bool-cases (claimable kinds t.rows r)) [
        | inl h ↦ absurd (subst (In r) e (select-In (claimable kinds t.rows) t.rows r i h))
        | inr h ↦ h
      ],
      refl,
    )
    by_oldest (some r) (i, low) =
        let a = In-select (claimable kinds t.rows) t.rows r i in
        (
          r,
          (
            a.0,
            (
              a.1,
              ((λ s j h. low s (select-In (claimable kinds t.rows) t.rows s j h)), (refl, refl)),
            ),
          ),
        )
