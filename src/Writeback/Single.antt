-- ===== src/Writeback/Single.antt =====
-- A video has one row in the maintenance lane at most, and one rename.
use holodex.Prelude.{
  ℕ, suc, ◌≤◌, ◌≡◌, refl, sym, subst, arith, Str, Bool, true, false, ◌&&◌, Option, none, some, List,
  [], ◌∷◌, ◌++◌, ltb, if◌then◌else◌, All,
}
use holodex.Writeback.Table.{
  Kind, write, maintenance, rename, Row, Table, count, has, select, delete_where, first, has_id,
  of_lane, is_active,
}
use holodex.Writeback.Queue.{
  JobInsert, new_row, insert, mark_running, claim_next, finish_writeback, recover_running,
  retry_failed, dismiss_failed, requeue_row, requeue_writeback, fail_rename_jobs, delete_video,
  replace_failed, enqueue_maintenance, enqueue_rename, enqueue_renames, enqueue_writeback,
  enqueue_writeback_batch, write_lane, maintenance_lane,
}
use holodex.Writeback.Claims.{Claimed, claim_next-Claimed}
use holodex.Writeback.Lanes.{
  Single, delete_where-Single, update_where-Single, insert-Single, replace_failed-Single,
}
use holodex.Writeback.Steps.{Op, apply, run, empty}
use holodex.Writeback.Count.{
  count-delete_where-le, count-delete_where-first, count-delete_where-snoc, count_of_no_row,
}

claim_next-Single :
    (kinds : Kind → Bool) (now : ℕ) (t : Table)
    → Single t.rows
    → Single (claim_next kinds now t).1.rows
claim_next-Single kinds now t s = by_claim (claim_next kinds now t) (claim_next-Claimed kinds now t)
  where
    by_claim : (o : Option Row × Table) → Claimed kinds now t o → Single o.1.rows
    by_claim (none, t') (h, e) = subst (λ (x : Table). Single x.rows) (sym e) s
    by_claim (some job, t') (r, (i, (can, (low, (e, e'))))) =
        subst (λ (x : Table). Single x.rows) (sym e')
          (update_where-Single (has_id r.id) (mark_running (suc r.attempts) now) t.rows
            (λ x. (refl, refl)) s)

-- The copy of a row takes the place of the row.
requeue_writeback-Single :
    (id now : ℕ) (t : Table) → Single t.rows → Single (requeue_writeback id now t).rows
unfolding requeue_writeback
requeue_writeback-Single id now t s v k h = by_row (first (select (has_id id) t.rows)) refl
  where
    by_row :
        (o : Option Row)
        → first (select (has_id id) t.rows) ≡ o
        → count (of_lane v k) (delete_where (has_id id) (requeue_row o now t).rows) ≤ 1
    by_row none e = delete_where-Single (has_id id) t.rows s v k h
    by_row (some r) e = by_lane (of_lane v k r) refl
      where
        copy : Row
        copy = new_row t.next_id r.video_id r.kind r.payload r.batch_id r.attempts now

        by_lane :
            (b : Bool)
            → of_lane v k r ≡ b
            → count (of_lane v k) (delete_where (has_id id) (t.rows ++ copy ∷ [])) ≤ 1
        by_lane true l =
            let a = count-delete_where-snoc (of_lane v k) (has_id id) t.rows copy in
            let b = count-delete_where-first (of_lane v k) (has_id id) t.rows r e l in
            let c = s v k h in ground arith
        by_lane false l =
            let a = count-delete_where-snoc (of_lane v k) (has_id id) t.rows copy in
            let b = count-delete_where-le (of_lane v k) (has_id id) t.rows in
            let c = s v k h in ground arith

enqueue_writeback_batch-Single :
    (jobs : List JobInsert) (now : ℕ) (t : Table)
    → Single t.rows
    → Single (enqueue_writeback_batch jobs now t).1.rows
unfolding enqueue_writeback_batch
enqueue_writeback_batch-Single [] now t s = s
enqueue_writeback_batch-Single (j ∷ js) now t s =
    enqueue_writeback_batch-Single js now (insert j.video_id write j.payload j.batch_id 0 now t)
      (insert-Single j.video_id j.payload j.batch_id 0 now t s)

abbrev SingleAfter : Option ℕ × Table → Type 0
SingleAfter o = Single o.1.rows

enqueue_maintenance-Single :
    (v : ℕ) (payload : Str) (now : ℕ) (t : Table)
    → Single t.rows
    → Single (enqueue_maintenance v payload now t).1.rows
unfolding enqueue_maintenance
enqueue_maintenance-Single v payload now t s = by_test (ltb 0 active) refl
  where
    active : ℕ
    active = count (λ r. of_lane v maintenance r && is_active r.status) t.rows

    by_test :
        (b : Bool)
        → ltb 0 active ≡ b
        → SingleAfter (
            if b
            then (none, t)
            else (some t.next_id, replace_failed v maintenance payload [] now t))
    by_test true e = s
    by_test false e = replace_failed-Single v maintenance payload [] now t (ground arith) s

enqueue_rename-Single :
    (v : ℕ) (payload batch : Str) (now : ℕ) (t : Table)
    → Single t.rows
    → Single (enqueue_rename v payload batch now t).rows
enqueue_rename-Single v payload batch now t s = by_test (has is_busy t.rows) refl
  where
    is_busy : Row → Bool
    is_busy r = of_lane v rename r && is_active r.status

    by_test :
        (b : Bool)
        → has is_busy t.rows ≡ b
        → Single (if b then t else replace_failed v rename payload batch now t).rows
    by_test true e = s
    by_test false e =
        replace_failed-Single v rename payload batch now t (count_of_no_row is_busy t.rows e) s

enqueue_renames-Single :
    (jobs : List (ℕ × Str)) (batch : Str) (now : ℕ) (t : Table)
    → Single t.rows
    → Single (enqueue_renames jobs batch now t).rows
unfolding enqueue_renames
enqueue_renames-Single [] batch now t s = s
enqueue_renames-Single (j ∷ js) batch now t s =
    enqueue_renames-Single js batch now (enqueue_rename j.0 j.1 batch now t)
      (enqueue_rename-Single j.0 j.1 batch now t s)

finish_writeback-Single :
    (id : ℕ) (is_ok : Bool) (msg : Str) (now : ℕ) (t : Table)
    → Single t.rows
    → Single (finish_writeback id is_ok msg now t).rows
unfolding finish_writeback
finish_writeback-Single id true msg now t s = delete_where-Single (has_id id) t.rows s
finish_writeback-Single id false msg now t s =
    update_where-Single (has_id id) _ t.rows (λ r. (refl, refl)) s

-- A fold gives the rows of one video to another.
abbrev pub is_fold : Op → Bool
is_fold (Op.enqueue v payload batch now) = false
is_fold (Op.enqueue_batch jobs now) = false
is_fold (Op.enqueue_one v payload now) = false
is_fold (Op.enqueue_names jobs batch now) = false
is_fold (Op.claim_write now) = false
is_fold (Op.claim_maintenance now) = false
is_fold (Op.finish id is_ok msg now) = false
is_fold (Op.recover now) = false
is_fold (Op.retry v k now) = false
is_fold (Op.dismiss v k) = false
is_fold (Op.requeue id now) = false
is_fold (Op.fail_names v msg now) = false
is_fold (Op.remove v) = false
is_fold (Op.fold evidence older newer) = true

apply-Single : (o : Op) (t : Table) → is_fold o ≡ false → Single t.rows → Single (apply o t).rows
unfolding enqueue_writeback recover_running retry_failed dismiss_failed fail_rename_jobs
    delete_video
apply-Single (Op.enqueue v payload batch now) t n s = insert-Single v payload batch 0 now t s
apply-Single (Op.enqueue_batch jobs now) t n s = enqueue_writeback_batch-Single jobs now t s
apply-Single (Op.enqueue_one v payload now) t n s = enqueue_maintenance-Single v payload now t s
apply-Single (Op.enqueue_names jobs batch now) t n s = enqueue_renames-Single jobs batch now t s
apply-Single (Op.claim_write now) t n s = claim_next-Single write_lane now t s
apply-Single (Op.claim_maintenance now) t n s = claim_next-Single maintenance_lane now t s
apply-Single (Op.finish id is_ok msg now) t n s = finish_writeback-Single id is_ok msg now t s
apply-Single (Op.recover now) t n s = update_where-Single _ _ t.rows (λ r. (refl, refl)) s
apply-Single (Op.retry v k now) t n s = update_where-Single _ _ t.rows (λ r. (refl, refl)) s
apply-Single (Op.dismiss v k) t n s = delete_where-Single _ t.rows s
apply-Single (Op.requeue id now) t n s = requeue_writeback-Single id now t s
apply-Single (Op.fail_names v msg now) t n s = update_where-Single _ _ t.rows (λ r. (refl, refl)) s
apply-Single (Op.remove v) t n s = delete_where-Single _ t.rows s
apply-Single (Op.fold evidence older newer) t n s = absurd (cc)

run-Single_from :
    (ops : List Op) (t : Table)
    → All (λ o. is_fold o ≡ false) ops
    → Single t.rows
    → Single (run ops t).rows
unfolding run
run-Single_from [] t n s = s
run-Single_from (o ∷ os) t (a, n) s = run-Single_from os (apply o t) n (apply-Single o t a s)

empty-Single : Single empty.rows
unfolding count
empty-Single v k h = omega arith

-- After any sequence of the queue's operations without a fold of videos, a video has one maintenance
-- row at most, pending, running or failed, and one rename row at most.
pub run-Single : (ops : List Op) → All (λ o. is_fold o ≡ false) ops → Single (run ops empty).rows
run-Single ops n = run-Single_from ops empty n empty-Single
