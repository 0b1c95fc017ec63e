-- ===== src/Writeback/Exclusive.antt =====
-- No two jobs of a video run at once.
use holodex.Prelude.{
  ℕ, suc, ◌+◌, ◌≤◌, ◌≡◌, refl, sym, subst, arith, Str, Bool, true, false, ◌&&◌, ◌||◌, Option, none,
  some, List, [], ◌∷◌, ◌==◌, ltb, if◌then◌else◌, if_both, ==_iff, Bool-cases, In, inl, inr,
}
use holodex.Writeback.Table.{
  Kind, write, maintenance, rename, Row, Table, count, has, select, update_where, first, has_id,
  has_video, of_lane, is_running, is_failed, is_active,
}
use holodex.Writeback.Queue.{
  JobInsert, insert, mark_running, claim_next, finish_writeback, recover_running, retry_failed,
  dismiss_failed, requeue_row, requeue_writeback, fail_rename_jobs, delete_video, fold_video,
  replace_failed, enqueue_maintenance, enqueue_rename, enqueue_renames, enqueue_writeback,
  enqueue_writeback_batch, is_idle, write_lane, maintenance_lane,
}
use holodex.Writeback.Claims.{Claimed, claim_next-Claimed}
use holodex.Writeback.Safe.{
  runs, Safe, empty-Safe, delete_where-Safe, update_where-Safe, insert-Safe,
}
use holodex.Writeback.Steps.{Op, apply, run, empty}
use holodex.Writeback.Count.{
  count-update_where-le, count_of_no_row, count_disjoint, count_pos, count-update_where-cover,
}

-- A row of the table, whose video has no job running, is marked running.
mark-Safe :
    (r : Row) (f : Row → Row) (t : Table)
    → In r t.rows
    → has (λ s. has_video r.video_id s && is_running s.status) t.rows ≡ false
    → ((s : Row) → ((f s).id ≡ s.id) × ((f s).video_id ≡ s.video_id))
    → Safe t
    → Safe (record t { rows = update_where (has_id r.id) f t.rows })
mark-Safe r f t i free keeps s = record {
  ids = λ k. omega (
    arith,
    s.ids k,
    count-update_where-le (has_id k) (has_id r.id) f t.rows
        (λ x e. let a = keeps x in ground arith),
  );
  fresh = λ k lt. omega (
    arith,
    s.fresh k lt,
    count-update_where-le (has_id k) (has_id r.id) f t.rows
        (λ x e. let a = keeps x in ground arith),
  );
  running = λ v. elim (Bool-cases (v == r.video_id)) [
    | inl e ↦
        subst (λ (w : ℕ). count (runs w) (update_where (has_id r.id) f t.rows) ≤ 1)
          (sym ((==_iff v r.video_id).0 e)) same
    | inr e ↦ other v e
  ];
}
  where
    at : ℕ → Row → Bool
    at v x = has_id r.id x && has_video v x

    cover :
        (v : ℕ)
        → count (runs v) (update_where (has_id r.id) f t.rows)
          ≤ count (runs v) t.rows + count (at v) t.rows
    cover v =
        count-update_where-cover (runs v) (has_id r.id) (at v) f t.rows
          (λ x e k. let a = keeps x in ground arith)

    one : (v : ℕ) → count (at v) t.rows ≤ 1
    one v = omega (
      arith,
      s.ids r.id,
      count_disjoint (has_id r.id) (at v) (λ x. false) t.rows (λ x. ground arith),
    )

    same : count (runs r.video_id) (update_where (has_id r.id) f t.rows) ≤ 1
    same =
        omega
          (arith, one r.video_id, cover r.video_id, count_of_no_row (runs r.video_id) t.rows free)

    other :
        (v : ℕ)
        → (v == r.video_id) ≡ false
        → count (runs v) (update_where (has_id r.id) f t.rows) ≤ 1
    other v e =
        let a = count_disjoint (has_id r.id) (at v) (at r.video_id) t.rows (λ x. ground arith) in
        let b = count_pos (at r.video_id) t.rows r i (ground arith) in
        omega (arith, a, b, s.ids r.id, cover v, s.running v)

claim_next-Safe :
    (kinds : Kind → Bool) (now : ℕ) (t : Table) → Safe t → Safe (claim_next kinds now t).1
claim_next-Safe kinds now t s = by_claim (claim_next kinds now t) (claim_next-Claimed kinds now t)
  where
    by_claim : (o : Option Row × Table) → Claimed kinds now t o → Safe o.1
    by_claim (none, t') (h, e) = subst Safe (sym e) s
    by_claim (some job, t') (r, (i, (can, (low, (e, e'))))) =
        subst Safe (sym e')
          (mark-Safe r (mark_running (suc r.attempts) now) t i (ground arith) (λ x. (refl, refl)) s)

fold_video-Safe :
    (evidence : Bool) (older newer : ℕ) (t : Table)
    → Safe t
    → Safe (fold_video evidence older newer t)
unfolding fold_video
fold_video-Safe evidence older newer t s = by_test (evidence && is_idle older newer t) refl
  where
    moved : Row → Row
    moved r = record r { video_id = older }

    busy : Row → Bool
    busy r = (has_video older r || has_video newer r) && is_active r.status

    by_test :
        (b : Bool)
        → (evidence && is_idle older newer t) ≡ b
        → Safe (
            if b
            then record t {
              rows = update_where (has_video newer) (λ r. record r { video_id = older }) t.rows;
            }
            else t)
    by_test false e = s
    by_test true e = record {
      ids = λ i. omega (
        arith,
        s.ids i,
        count-update_where-le (has_id i) (has_video newer) moved t.rows (λ r h. h),
      );
      fresh = λ i lt. omega (
        arith,
        s.fresh i lt,
        count-update_where-le (has_id i) (has_video newer) moved t.rows (λ r h. h),
      );
      running = λ v. omega (
        arith,
        s.running v,
        count_of_no_row busy t.rows (ground arith),
        count-update_where-cover (runs v) (has_video newer) busy moved t.rows
            (λ r h k. ground arith),
      );
    }

enqueue_writeback_batch-Safe :
    (jobs : List JobInsert) (now : ℕ) (t : Table)
    → Safe t
    → Safe (enqueue_writeback_batch jobs now t).1
unfolding enqueue_writeback_batch
enqueue_writeback_batch-Safe [] now t s = s
enqueue_writeback_batch-Safe (j ∷ js) now t s =
    enqueue_writeback_batch-Safe js now (insert j.video_id write j.payload j.batch_id 0 now t)
      (insert-Safe j.video_id write j.payload j.batch_id 0 now t s)

pub replace_failed-Safe :
    (v : ℕ) (k : Kind) (payload batch : Str) (now : ℕ) (t : Table)
    → Safe t
    → Safe (replace_failed v k payload batch now t)
replace_failed-Safe v k payload batch now t s =
    insert-Safe v k payload batch 0 now _
      (delete_where-Safe (λ r. of_lane v k r && is_failed r.status) t s)

enqueue_maintenance-Safe :
    (v : ℕ) (payload : Str) (now : ℕ) (t : Table)
    → Safe t
    → Safe (enqueue_maintenance v payload now t).1
unfolding enqueue_maintenance
enqueue_maintenance-Safe v payload now t s =
    if_both (λ (o : Option ℕ × Table). Safe o.1)
      (ltb 0 (count (λ r. of_lane v maintenance r && is_active r.status) t.rows)) s
      (replace_failed-Safe v maintenance payload [] now t s)

enqueue_renames-Safe :
    (jobs : List (ℕ × Str)) (batch : Str) (now : ℕ) (t : Table)
    → Safe t
    → Safe (enqueue_renames jobs batch now t)
unfolding enqueue_renames
enqueue_renames-Safe [] batch now t s = s
enqueue_renames-Safe (j ∷ js) batch now t s =
    enqueue_renames-Safe js batch now (enqueue_rename j.0 j.1 batch now t) (
      if_both Safe (has (λ r. of_lane j.0 rename r && is_active r.status) t.rows) s
        (replace_failed-Safe j.0 rename j.1 batch now t s))

finish_writeback-Safe :
    (id : ℕ) (is_ok : Bool) (msg : Str) (now : ℕ) (t : Table)
    → Safe t
    → Safe (finish_writeback id is_ok msg now t)
unfolding finish_writeback
finish_writeback-Safe id true msg now t s = delete_where-Safe (has_id id) t s
finish_writeback-Safe id false msg now t s =
    update_where-Safe (has_id id) _ t (λ i r h. h) (λ v r h. ground arith) s

pub requeue_row-Safe : (o : Option Row) (now : ℕ) (t : Table) → Safe t → Safe (requeue_row o now t)
requeue_row-Safe none now t s = s
requeue_row-Safe (some r) now t s =
    insert-Safe r.video_id r.kind r.payload r.batch_id r.attempts now t s

pub apply-Safe : (o : Op) (t : Table) → Safe t → Safe (apply o t)
unfolding enqueue_writeback recover_running retry_failed dismiss_failed requeue_writeback
    fail_rename_jobs delete_video
apply-Safe (Op.enqueue v payload batch now) t s = insert-Safe v write payload batch 0 now t s
apply-Safe (Op.enqueue_batch jobs now) t s = enqueue_writeback_batch-Safe jobs now t s
apply-Safe (Op.enqueue_one v payload now) t s = enqueue_maintenance-Safe v payload now t s
apply-Safe (Op.enqueue_names jobs batch now) t s = enqueue_renames-Safe jobs batch now t s
apply-Safe (Op.claim_write now) t s = claim_next-Safe write_lane now t s
apply-Safe (Op.claim_maintenance now) t s = claim_next-Safe maintenance_lane now t s
apply-Safe (Op.finish id is_ok msg now) t s = finish_writeback-Safe id is_ok msg now t s
apply-Safe (Op.recover now) t s = update_where-Safe _ _ t (λ i r h. h) (λ v r h. ground arith) s
apply-Safe (Op.retry v k now) t s = update_where-Safe _ _ t (λ i r h. h) (λ w r h. ground arith) s
apply-Safe (Op.dismiss v k) t s = delete_where-Safe _ t s
apply-Safe (Op.requeue id now) t s =
    delete_where-Safe (has_id id) _ (requeue_row-Safe (first (select (has_id id) t.rows)) now t s)
apply-Safe (Op.fail_names v msg now) t s =
    update_where-Safe _ _ t (λ i r h. h) (λ w r h. ground arith) s
apply-Safe (Op.remove v) t s = delete_where-Safe _ t s
apply-Safe (Op.fold evidence older newer) t s = fold_video-Safe evidence older newer t s

run-Safe : (ops : List Op) (t : Table) → Safe t → Safe (run ops t)
unfolding run
run-Safe [] t s = s
run-Safe (o ∷ os) t s = run-Safe os (apply o t) (apply-Safe o t s)

-- After any sequence of the queue's operations, in any order and with any arguments, no video has two
-- jobs running, of whatever kinds. Ids are unique, and the next one is not taken.
pub run-Exclusive : (ops : List Op) → Safe (run ops empty)
run-Exclusive ops = run-Safe ops empty empty-Safe
