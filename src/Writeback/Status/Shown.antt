-- ===== src/Writeback/Status/Shown.antt =====
-- What the page of a video shows is what its rows say.
use holodex.Prelude.{
  ℕ, ◌≡◌, ◌⊎◌, refl, sym, subst, ◌∙◌, arith, Str, Bool, true, false, ◌||◌, List, [], ◌∷◌, In,
  All-In, inl, inr,
}
use holodex.Writeback.Table.{
  Kind, Status, pending, running, failed, Row, Table, has, select, of_lane, is_active, is_running,
  is_failed,
}
use holodex.Writeback.Status.{
  LaneStatus, updated_before, by_update, show_row, show_rows, nothing, video_queue_status,
}
use holodex.Writeback.Status.Sorted.{IsSorted, has-by_update, by_update-IsSorted, In-by_update}

show_row-flags :
    (s : Status) (r : Row) (out : LaneStatus)
    → ((show_row s r out).is_pending ≡ (out.is_pending || is_active s))
      × (((show_row s r out).is_running ≡ (out.is_running || is_running s))
          × ((show_row s r out).is_failed ≡ (out.is_failed || is_failed s)))
show_row-flags s r out = ground arith

-- The flags that the loop sets.
show_rows-flags :
    (rs : List Row) (out : LaneStatus)
    → ((show_rows rs out).is_pending ≡ (out.is_pending || has (λ r. is_active r.status) rs))
      × (((show_rows rs out).is_running ≡ (out.is_running || has (λ r. is_running r.status) rs))
          × ((show_rows rs out).is_failed ≡ (out.is_failed || has (λ r. is_failed r.status) rs)))
unfolding has show_rows
show_rows-flags [] out = (ground arith, (ground arith, ground arith))
show_rows-flags (r ∷ rs) out =
    let a = show_rows-flags rs (show_row r.status r out) in
    let b = show_row-flags r.status r out in
    (both _ _ _ _ _ a.0 b.0, (both _ _ _ _ _ a.1.0 b.1.0, both _ _ _ _ _ a.1.1 b.1.1))
  where
    both : (x y p q z : Bool) → x ≡ (y || p) → y ≡ (z || q) → x ≡ (z || (q || p))
    both x y p q z h k = ground arith

-- The message shown is that of a failed row, which no failed row was updated after; or there is none.
abbrev pub LatestError : List Row → Str → Str → Type 0
LatestError rs other e =
    ((r : Row) × (In r rs
        × ((is_failed r.status ≡ true)
            × ((e ≡ r.error)
                × ((s : Row) → In s rs → is_failed s.status ≡ true → updated_before r s ≡ false)))))
    ⊎ ((has (λ r. is_failed r.status) rs ≡ false) × (e ≡ other))

not_failed :
    (rs : List Row) (s : Row)
    → has (λ r. is_failed r.status) rs ≡ false
    → In s rs
    → is_failed s.status ≡ false
unfolding has
not_failed [] s h i = absurd i
not_failed (r ∷ rs) s h (inl same) =
    subst (λ (y : Row). is_failed y.status ≡ false) same (ground arith)
not_failed (r ∷ rs) s h (inr i) = not_failed rs s (ground arith) i

show_rows-LatestError :
    (rs : List Row) (out : LaneStatus)
    → IsSorted rs
    → LatestError rs out.error (show_rows rs out).error
unfolding show_rows has
show_rows-LatestError [] out h = inr (refl, refl)
show_rows-LatestError (r ∷ rs) out (a, h) =
    by_later _ (show_rows-LatestError rs (show_row r.status r out) h)
  where
    low_at : (x : Row) → In x rs → (s : Row) → r ≡ s → updated_before x s ≡ false
    low_at x i s same =
        subst (λ (y : Row). updated_before x y ≡ false) same
          (All-In (λ (y : Row). updated_before y r ≡ false) rs x a i)

    by_status :
        (st : Status) (e : Str)
        → r.status ≡ st
        → has (λ r. is_failed r.status) rs ≡ false
        → e ≡ (show_row st r out).error
        → LatestError (r ∷ rs) out.error e
    by_status pending e k none_failed h = inr (ground arith, h)
    by_status running e k none_failed h = inr (ground arith, h)
    by_status failed e k none_failed h = inl (
      r,
      (
        inl refl,
        (
          ground arith,
          (
            h,
            λ s i f. elim i [
              | inl same ↦ subst (λ (y : Row). updated_before r y ≡ false) same (ground arith)
              | inr j ↦ let z = not_failed rs s none_failed j in absurd (cc)
            ],
          ),
        ),
      ),
    )

    by_later :
        (e : Str)
        → LatestError rs (show_row r.status r out).error e
        → LatestError (r ∷ rs) out.error e
    by_later e (inl (x, (i, (f, (k, low))))) =
        inl (
          x,
          (inr i, (f, (k, λ s j g. elim j [ inl same ↦ low_at x i s same | inr l ↦ low s l g ]))),
        )
    by_later e (inr (none_failed, k)) = by_status r.status e refl none_failed k

-- What the page of a video shows for a lane: pending and failed flags exactly when some row of the lane
-- is, running when one runs, and the message of a failed row that no other one was updated after.
abbrev pub ShownFor : List Row → LaneStatus → Type 0
ShownFor rows out =
    ((out.is_pending ≡ has (λ r. is_active r.status) rows)
      × ((out.is_running ≡ has (λ r. is_running r.status) rows)
          × (out.is_failed ≡ has (λ r. is_failed r.status) rows)))
    × LatestError rows [] out.error

by_update-LatestError :
    (rs : List Row) (other e : Str) → LatestError (by_update rs) other e → LatestError rs other e
by_update-LatestError rs other e (inl (r, (i, (f, (k, low))))) =
    inl (r, ((In-by_update r rs).0 i, (f, (k, λ s j g. low s ((In-by_update s rs).1 j) g))))
by_update-LatestError rs other e (inr (h, k)) =
    inr (sym (has-by_update (λ r. is_failed r.status) rs) ∙ h, k)

-- The status of a video's lane shows a pending job exactly when some row of the lane is pending or running,
-- a running one exactly when one is running, and a failure exactly when one failed; the message is that
-- of a failed row of the lane that no other failed one was updated after, and empty when there is none.
pub video_queue_status-Shown :
    (v : ℕ) (k : Kind) (t : Table)
    → ShownFor (select (of_lane v k) t.rows) (video_queue_status v k t)
unfolding video_queue_status
video_queue_status-Shown v k t =
    let a = show_rows-flags (by_update rows) nothing in
    (
      (
        a.0 ∙ has-by_update (λ r. is_active r.status) rows,
        (
          a.1.0 ∙ has-by_update (λ r. is_running r.status) rows,
          a.1.1 ∙ has-by_update (λ r. is_failed r.status) rows,
        ),
      ),
      by_update-LatestError rows [] _
          (show_rows-LatestError (by_update rows) nothing (by_update-IsSorted rows)),
    )
  where
    rows : List Row
    rows = select (of_lane v k) t.rows
