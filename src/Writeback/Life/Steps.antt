-- ===== src/Writeback/Life/Steps.antt =====
-- Every operation of the queue is a step of each job's machine.
use holodex.Prelude.{
  ℕ, suc, ◌≡◌, refl, sym, subst, arith, Str, Bool, true, false, not, ◌&&◌, Option, none, some, List,
  leb, Bool-cases, inl, inr, if_both, In,
}
use holodex.Writeback.Table.{
  Kind, write, Status, Row, Table, select, first, has_id, is_pending, is_running, is_failed,
  has_video,
}
use holodex.Writeback.Queue.{
  mark_running, claim_next, finish_writeback, recover_running, retry_failed, dismiss_failed,
  fail_rename_jobs, delete_video, fold_video, is_idle, enqueue_writeback, write_lane,
  maintenance_lane,
}
use holodex.Writeback.Claims.{Claimed, claim_next-Claimed, In-select}
use holodex.Writeback.Count.{count_disjoint, count_pos}
use holodex.Writeback.Outcomes.{first-In}
use holodex.Writeback.Steps.{Op, apply, run, empty}
use holodex.Writeback.Safe.{Safe, empty-Safe}
use holodex.Writeback.Exclusive.{run-Exclusive}
use holodex.Writeback.Life.Calm.{
  Calm-Follows, enqueue_writeback_batch-Grows, enqueue_renames-Grows, requeue_writeback-Calm,
  enqueue_maintenance-Calm,
}
use holodex.Writeback.Life.History.{saw, saw-Counts, may_become-new}
use holodex.Writeback.Life.{
  may_become, phase, Follows, update_where-Follows, delete_where-Calm, insert-Calm, stays,
}

-- A job that a claim marks is pending.
claim_next-Follows :
    (id : ℕ) (kinds : Kind → Bool) (now : ℕ) (t : Table)
    → Safe t
    → Follows id t (claim_next kinds now t).1
claim_next-Follows id kinds now t s =
    by_claim (claim_next kinds now t) (claim_next-Claimed kinds now t)
  where
    pending_one :
        (r x : Row)
        → In r t.rows
        → is_pending r.status ≡ true
        → first (select (has_id id) t.rows) ≡ some x
        → has_id r.id x ≡ true
        → is_failed x.status ≡ false
    pending_one r x i p found same =
        let a = In-select (has_id id) t.rows x (first-In (select (has_id id) t.rows) x found) in
        elim (Bool-cases (is_failed x.status)) [
          | inr e ↦ e
          | inl e ↦
              let c =
                count_disjoint (has_id r.id) (λ y. has_id r.id y && is_failed y.status)
                  (λ y. has_id r.id y && is_pending y.status) t.rows (λ y. ground arith) in
              let d =
                count_pos (λ y. has_id r.id y && is_failed y.status) t.rows x a.0 (ground arith) in
              let f =
                count_pos (λ y. has_id r.id y && is_pending y.status) t.rows r i (ground arith) in
              absurd (omega (arith, c, d, f, s.ids r.id))
        ]

    by_claim : (o : Option Row × Table) → Claimed kinds now t o → Follows id t o.1
    by_claim (none, t') (h, e) =
        subst (Follows id t) (sym e) (stays (leb t.next_id id) (phase id t))
    by_claim (some job, t') (r, (i, (can, (low, (e, e'))))) = subst (Follows id t) (sym e') (
        update_where-Follows id (has_id r.id) (mark_running (suc r.attempts) now) t (λ x. refl)
          (λ x found same is_run. pending_one r x i (ground arith) found same))

finish_writeback-Follows :
    (id i : ℕ) (is_ok : Bool) (msg : Str) (now : ℕ) (t : Table)
    → Safe t
    → Follows id t (finish_writeback i is_ok msg now t)
unfolding finish_writeback
finish_writeback-Follows id i true msg now t s =
    Calm-Follows id t (finish_writeback i true msg now t) (delete_where-Calm id (has_id i) t s)
finish_writeback-Follows id i false msg now t s =
    update_where-Follows id (has_id i) _ t (λ r. refl) (λ r found q e. absurd (cc))

fold_video-Follows :
    (id : ℕ) (evidence : Bool) (older newer : ℕ) (t : Table)
    → Follows id t (fold_video evidence older newer t)
unfolding fold_video
fold_video-Follows id evidence older newer t =
    if_both (Follows id t) (evidence && is_idle older newer t)
      (update_where-Follows id (has_video newer) (λ r. record r { video_id = older }) t (λ r. refl)
        (λ r found q e. runs_not_failed r.status e))
      (stays (leb t.next_id id) (phase id t))
  where
    runs_not_failed : (st : Status) → is_running st ≡ true → is_failed st ≡ false
    runs_not_failed st e = ground arith

apply-Follows : (id : ℕ) (o : Op) (t : Table) → Safe t → Follows id t (apply o t)
unfolding enqueue_writeback recover_running retry_failed dismiss_failed fail_rename_jobs
    delete_video
apply-Follows id (Op.enqueue v payload batch now) t s =
    Calm-Follows id t (apply (Op.enqueue v payload batch now) t)
      (insert-Calm id v write payload batch 0 now t)
apply-Follows id (Op.enqueue_batch jobs now) t s =
    Calm-Follows id t (apply (Op.enqueue_batch jobs now) t)
      (enqueue_writeback_batch-Grows id jobs now t s).1
apply-Follows id (Op.enqueue_one v payload now) t s =
    Calm-Follows id t (apply (Op.enqueue_one v payload now) t)
      (enqueue_maintenance-Calm id v payload now t s)
apply-Follows id (Op.enqueue_names jobs batch now) t s =
    Calm-Follows id t (apply (Op.enqueue_names jobs batch now) t)
      (enqueue_renames-Grows id jobs batch now t s).1
apply-Follows id (Op.claim_write now) t s = claim_next-Follows id write_lane now t s
apply-Follows id (Op.claim_maintenance now) t s = claim_next-Follows id maintenance_lane now t s
apply-Follows id (Op.finish i is_ok msg now) t s = finish_writeback-Follows id i is_ok msg now t s
apply-Follows id (Op.recover now) t s =
    update_where-Follows id _ _ t (λ r. refl) (λ r found q e. absurd (cc))
apply-Follows id (Op.retry v k now) t s =
    update_where-Follows id _ _ t (λ r. refl) (λ r found q e. absurd (cc))
apply-Follows id (Op.dismiss v k) t s =
    Calm-Follows id t (apply (Op.dismiss v k) t) (delete_where-Calm id _ t s)
apply-Follows id (Op.requeue i now) t s =
    Calm-Follows id t (apply (Op.requeue i now) t) (requeue_writeback-Calm id i now t s)
apply-Follows id (Op.fail_names v msg now) t s =
    update_where-Follows id _ _ t (λ r. refl) (λ r found q e. absurd (cc))
apply-Follows id (Op.remove v) t s =
    Calm-Follows id t (apply (Op.remove v) t) (delete_where-Calm id _ t s)
apply-Follows id (Op.fold evidence older newer) t s = fold_video-Follows id evidence older newer t

-- The step that an operation makes of a job after a history: the id is new where the history never saw
-- it in the queue.
abbrev pub Lives : ℕ → List Op → Op → Type 0
Lives id ops o =
    may_become (not (saw id ops empty)) (phase id (run ops empty))
      (phase id (apply o (run ops empty)))
    ≡ true

-- After any operations, the next one does to each job what its machine allows: a job comes as pending, under
-- an id that no job had at any point before; so one that was in the queue and is gone does not come
-- back, nor does another under its id; and one that failed is pending again before it runs.
pub run-Follows : (ops : List Op) (o : Op) (id : ℕ) → Lives id ops o
run-Follows ops o id =
    may_become-new (leb (run ops empty).next_id id) (not (saw id ops empty))
      (phase id (run ops empty)) (phase id (apply o (run ops empty)))
      (apply-Follows id o (run ops empty) (run-Exclusive ops))
      (by_history (saw id ops empty) (saw-Counts id ops empty empty-Safe))
  where
    by_history :
        (b : Bool)
        → (b ≡ true → leb (run ops empty).next_id id ≡ false)
        → leb (run ops empty).next_id id ≡ true
        → not b ≡ true
    by_history true h e = let k = h refl in cc
    by_history false h e = refl
