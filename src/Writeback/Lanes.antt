-- ===== src/Writeback/Lanes.antt =====
-- The rows that a video has in a lane, and what each statement on the queue keeps of them.
use holodex.Prelude.{
  ℕ, ◌+◌, ◌≤◌, ◌≡◌, refl, subst, arith, Str, Bool, true, false, ◌&&◌, ◌||◌, List, [], ◌∷◌, ◌++◌,
  ◌==◌, if◌then◌else◌, Bool-cases, inl, inr, ==_iff,
}
use holodex.Writeback.Table.{
  Kind, Status, pending, running, failed, write, maintenance, rename, ◌=k◌, Row, Table, count,
  delete_where, update_where, of_lane, is_failed, is_active,
}
use holodex.Writeback.Queue.{new_row, insert, replace_failed}
use holodex.Writeback.Count.{
  count-snoc, count-delete_where-le, count-delete_where-cover, count-update_where-le,
}

-- The video's rows of every lane but the tag writes are one at most.
abbrev pub Single : List Row → Type 0
Single rows = (v : ℕ) (k : Kind) → (k =k write) ≡ false → count (of_lane v k) rows ≤ 1

pub delete_where-Single : (q : Row → Bool) (rs : List Row) → Single rs → Single (delete_where q rs)
delete_where-Single q rs s v k h = omega (arith, s v k h, count-delete_where-le (of_lane v k) q rs)

pub update_where-Single :
    (q : Row → Bool) (f : Row → Row) (rs : List Row)
    → ((r : Row) → ((f r).video_id ≡ r.video_id) × ((f r).kind ≡ r.kind))
    → Single rs
    → Single (update_where q f rs)
update_where-Single q f rs keeps s v k h = omega (
  arith,
  s v k h,
  count-update_where-le (of_lane v k) q f rs (λ r e. let a = keeps r in same r a e),
)
  where
    same :
        (r : Row)
        → ((f r).video_id ≡ r.video_id) × ((f r).kind ≡ r.kind)
        → of_lane v k (f r) ≡ true
        → of_lane v k r ≡ true
    same r (a, b) e =
        subst (λ (x : ℕ). (x == v && r.kind =k k) ≡ true) a
          (subst (λ (x : Kind). ((f r).video_id == v && x =k k) ≡ true) b e)

pub insert-Single :
    (v : ℕ) (payload batch : Str) (attempts now : ℕ) (t : Table)
    → Single t.rows
    → Single (insert v write payload batch attempts now t).rows
insert-Single v payload batch attempts now t s w k h =
    let a = s w k h in
    let c =
      count-snoc (of_lane w k) t.rows (new_row t.next_id v write payload batch attempts now) in
    by_kind w k h a c
  where
    by_kind :
        (w : ℕ) (k : Kind)
        → (k =k write) ≡ false
        → count (of_lane w k) t.rows ≤ 1
        → count
            (of_lane w k)
            (t.rows ++ (new_row t.next_id v write payload batch attempts now ∷ []))
          ≡ count (of_lane w k) t.rows
            + (if of_lane w k (new_row t.next_id v write payload batch attempts now) then 1 else 0)
        → count
            (of_lane w k)
            (t.rows ++ (new_row t.next_id v write payload batch attempts now ∷ []))
          ≤ 1
    by_kind w k h a c = ground arith

same_kind : (k l : Kind) → (k =k l) ≡ true → k ≡ l
same_kind write write e = refl
same_kind write maintenance e = absurd (cc)
same_kind write rename e = absurd (cc)
same_kind maintenance write e = absurd (cc)
same_kind maintenance maintenance e = refl
same_kind maintenance rename e = absurd (cc)
same_kind rename write e = absurd (cc)
same_kind rename maintenance e = absurd (cc)
same_kind rename rename e = refl

either : (s : Status) → (is_failed s || is_active s) ≡ true
either pending = refl
either running = refl
either failed = refl

-- Without a pending or running row of the lane, its failed rows go and one comes.
pub replace_failed-Single :
    (v : ℕ) (k : Kind) (payload batch : Str) (now : ℕ) (t : Table)
    → count (λ r. of_lane v k r && is_active r.status) t.rows ≡ 0
    → Single t.rows
    → Single (replace_failed v k payload batch now t).rows
replace_failed-Single v k payload batch now t none_active s w l h =
    elim (Bool-cases (v == w && k =k l)) [ inl e ↦ same e | inr e ↦ other e ]
  where
    kept : List Row
    kept = delete_where (λ r. of_lane v k r && is_failed r.status) t.rows

    row : Row
    row = new_row t.next_id v k payload batch 0 now

    here : count (of_lane v k) (kept ++ row ∷ []) ≤ 1
    here =
        let a = count-snoc (of_lane v k) kept row in
        let b =
          count-delete_where-cover (of_lane v k) (λ r. of_lane v k r && is_failed r.status)
            (λ r. of_lane v k r && is_active r.status) t.rows (λ r e. settled r e) in
        ground arith
      where
        settled :
            (r : Row)
            → of_lane v k r ≡ true
            → ((of_lane v k r && is_failed r.status) || (of_lane v k r && is_active r.status))
              ≡ true
        settled r e = rw (e) (either r.status)

    same : (v == w && k =k l) ≡ true → count (of_lane w l) (kept ++ row ∷ []) ≤ 1
    same e =
        subst (λ (x : ℕ). count (of_lane x l) (kept ++ row ∷ []) ≤ 1)
          ((==_iff v w).0 (ground arith))
          (subst (λ (x : Kind). count (of_lane v x) (kept ++ row ∷ []) ≤ 1)
            (same_kind k l (ground arith)) here)

    other : (v == w && k =k l) ≡ false → count (of_lane w l) (kept ++ row ∷ []) ≤ 1
    other e =
        let a = count-snoc (of_lane w l) kept row in
        let b =
          count-delete_where-le (of_lane w l) (λ r. of_lane v k r && is_failed r.status) t.rows in
        let c = s w l h in ground arith
