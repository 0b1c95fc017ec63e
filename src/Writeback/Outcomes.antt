-- ===== src/Writeback/Outcomes.antt =====
-- What callers see of a job: its status when it has finished, and its place when it is put back.
use holodex.Prelude.{
  ℕ, suc, ◌≤◌, ◌≡◌, refl, sym, subst, ap, arith, Str, Bool, true, false, Option, none, some, List,
  [], ◌∷◌, ◌++◌, ◌==◌, if◌then◌else◌, In, In-append, In-append_right, All-In, ==_refl, inl, inr,
  All,
}
use holodex.Writeback.Table.{
  pending, failed, Row, Table, has, select, delete_where, update_where, first, has_id, comes_before,
}
use holodex.Writeback.Queue.{
  new_row, finish_writeback, done, stored, status_of, get_job_status, requeue_writeback,
  requeue_row,
}
use holodex.Writeback.Claims.{In-select}
use holodex.Writeback.Safe.{Safe}
use holodex.Writeback.Count.{count_pos}

-- The row of a failed job.
abbrev failed_row : Str → ℕ → Row → Row
failed_row msg now r = record r { status = failed; error = msg; updated_at = now }

deleted-status :
    (id : ℕ) (rs : List Row)
    → status_of (first (select (has_id id) (delete_where (has_id id) rs))) ≡ done
unfolding select delete_where
deleted-status id [] = refl
deleted-status id (r ∷ rs) = let a = deleted-status id rs in ground arith

failed-status :
    (id : ℕ) (msg : Str) (now : ℕ) (rs : List Row)
    → has (has_id id) rs ≡ true
    → status_of (first (select (has_id id) (update_where (has_id id) (failed_row msg now) rs)))
      ≡ stored failed msg
unfolding select update_where has
failed-status id msg now [] h = absurd (cc)
failed-status id msg now (r ∷ rs) h = let a = failed-status id msg now rs in ground arith

-- Another job's status.
other-delete :
    (i id : ℕ) (rs : List Row)
    → (i == id) ≡ false
    → select (has_id i) (delete_where (has_id id) rs) ≡ select (has_id i) rs
unfolding select delete_where
other-delete i id [] h = refl
other-delete i id (r ∷ rs) h = let a = other-delete i id rs h in ground arith

other-update :
    (i id : ℕ) (f : Row → Row) (rs : List Row)
    → ((r : Row) → (f r).id ≡ r.id)
    → (i == id) ≡ false
    → select (has_id i) (update_where (has_id id) f rs) ≡ select (has_id i) rs
unfolding select update_where
other-update i id f [] k h = refl
other-update i id f (r ∷ rs) k h = let a = other-update i id f rs k h in let b = k r in ground arith

-- What FinishWriteback leaves for GetWritebackJobStatus: a job that ended well reads as done, one that
-- failed as failed with its message, and every other job as before.
pub finish_writeback-Seen :
    (id : ℕ) (is_ok : Bool) (msg : Str) (now : ℕ) (t : Table)
    → has (has_id id) t.rows ≡ true
    → (get_job_status id (finish_writeback id is_ok msg now t)
        ≡ (if is_ok then done else stored failed msg))
      × ((i : ℕ)
          → (i == id) ≡ false
          → get_job_status i (finish_writeback id is_ok msg now t) ≡ get_job_status i t)
unfolding finish_writeback get_job_status
finish_writeback-Seen id true msg now t h = (
  deleted-status id t.rows,
  λ i e. ap (λ (rs : List Row). status_of (first rs)) (other-delete i id t.rows e),
)
finish_writeback-Seen id false msg now t h = (
  failed-status id msg now t.rows h,
  λ i e.
      ap (λ (rs : List Row). status_of (first rs))
        (other-update i id (failed_row msg now) t.rows (λ r. refl) e),
)

abbrev OptIn : List Row → Option Row → Type 0
OptIn rs none = Unit
OptIn rs (some r) = In r rs

pub first-In : (rs : List Row) (r : Row) → first rs ≡ some r → In r rs
first-In [] r e = absurd (cc)
first-In (s ∷ rs) r e = subst (OptIn (s ∷ rs)) e (inl refl)

In-delete_where : (q : Row → Bool) (rs : List Row) (r : Row) → In r (delete_where q rs) → In r rs
unfolding delete_where
In-delete_where q [] r i = i
In-delete_where q (s ∷ rs) r i = by_test (q s) i (λ j. In-delete_where q rs r j)
  where
    by_test :
        (b : Bool)
        → In r (if b then delete_where q rs else s ∷ delete_where q rs)
        → (In r (delete_where q rs) → In r rs)
        → In r (s ∷ rs)
    by_test true i later = inr (later i)
    by_test false (inl e) later = inl e
    by_test false (inr j) later = inr (later j)

delete_where-In :
    (q : Row → Bool) (rs : List Row) (r : Row) → In r rs → q r ≡ false → In r (delete_where q rs)
unfolding delete_where
delete_where-In q [] r i h = i
delete_where-In q (s ∷ rs) r i h = by_test (q s) refl i (λ j. delete_where-In q rs r j h)
  where
    by_test :
        (b : Bool)
        → q s ≡ b
        → In r (s ∷ rs)
        → (In r rs → In r (delete_where q rs))
        → In r (if b then delete_where q rs else s ∷ delete_where q rs)
    by_test true e (inl same) later = let a = subst (λ (x : Row). q x ≡ true) same e in absurd (cc)
    by_test true e (inr j) later = later j
    by_test false e (inl same) later = inl same
    by_test false e (inr j) later = inr (later j)

abbrev pub NotAfter : ℕ → Row → Type 0
NotAfter now r = r.enqueued_at ≤ now

-- A job that RequeueWriteback puts back, when no job was queued later than now, is pending behind every
-- row of the table: with its attempts, under a new id, while the old id reads as done.
pub requeue_writeback-Last :
    (id now : ℕ) (t : Table) (r : Row)
    → Safe t
    → first (select (has_id id) t.rows) ≡ some r
    → All (NotAfter now) t.rows
    → (copy : Row) × ((copy ≡ record r {
      id = t.next_id;
      status = pending;
      error = [];
      enqueued_at = now;
      updated_at = now;
    })
        × (In copy (requeue_writeback id now t).rows
            × (((s : Row) → In s (requeue_writeback id now t).rows → comes_before copy s ≡ false)
                × (get_job_status id (requeue_writeback id now t) ≡ done))))
unfolding requeue_writeback get_job_status
requeue_writeback-Last id now t r s e old = subst Last (sym e) (
  copy,
  (
    refl,
    (
      delete_where-In (has_id id) (t.rows ++ copy ∷ []) copy
          (In-append_right copy t.rows (copy ∷ []) (inl refl)) new,
      (
        (λ x i.
            elim (In-append x t.rows (copy ∷ [])
              (In-delete_where (has_id id) (t.rows ++ copy ∷ []) x i)) [
                | inl j ↦ behind x j
                | inr (inl same) ↦
                    subst (λ (y : Row). comes_before copy y ≡ false) same (ground arith)
                | inr (inr j) ↦ absurd j
              ]),
        deleted-status id (t.rows ++ copy ∷ []),
      ),
    ),
  ),
)
  where
    copy : Row
    copy = new_row t.next_id r.video_id r.kind r.payload r.batch_id r.attempts now

    Last : Option Row → Type 0
    Last o =
        (c : Row) × ((c ≡ record r {
          id = t.next_id;
          status = pending;
          error = [];
          enqueued_at = now;
          updated_at = now;
        })
          × (In c (delete_where (has_id id) (requeue_row o now t).rows)
              × (((x : Row)
                    → In x (delete_where (has_id id) (requeue_row o now t).rows)
                    → comes_before c x ≡ false)
                  × (status_of (
                        first (
                          select (has_id id) (delete_where (has_id id) (requeue_row o now t).rows)))
                      ≡ done))))

    taken : (x : Row) → In x t.rows → suc x.id ≤ t.next_id
    taken x i =
        let a = s.fresh x.id in
        let b = count_pos (has_id x.id) t.rows x i (==_refl x.id) in grind arith

    behind : (x : Row) → In x t.rows → comes_before copy x ≡ false
    behind x i = let a = taken x i in let b = All-In (NotAfter now) t.rows x old i in ground arith

    new : has_id id copy ≡ false
    new =
        let a = In-select (has_id id) t.rows r (first-In (select (has_id id) t.rows) r e) in
        let b = taken r a.0 in let c = a.1 in ground arith
