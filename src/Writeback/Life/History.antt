-- ===== src/Writeback/Life/History.antt =====
-- Which ids a history of the queue has seen, and that none of them is given to another job.
use holodex.Prelude.{
  Str, ◌&&◌, ℕ, ◌≤◌, ◌≡◌, sym, subst, ap, arith, Bool, true, false, ◌||◌, Option, none, some, List,
  [], ◌∷◌, leb, Bool-cases, if_both, inl, inr,
}
use holodex.Writeback.Table.{Row, Table, select, first, has_id}
use holodex.Writeback.Queue.{
  finish_writeback, requeue_row, requeue_writeback, enqueue_writeback, recover_running,
  retry_failed, dismiss_failed, fail_rename_jobs, delete_video, fold_video, is_idle, claim_next,
  write_lane, maintenance_lane, enqueue_maintenance,
}
use holodex.Writeback.Table.{Kind}
use holodex.Writeback.Claims.{Claimed, claim_next-Claimed}
use holodex.Writeback.Steps.{Op, apply, run}
use holodex.Writeback.Safe.{Safe}
use holodex.Writeback.Exclusive.{apply-Safe}
use holodex.Writeback.Life.{Phase, gone, queued, phase_of, phase, none-count, may_become}
use holodex.Writeback.Life.Calm.{enqueue_writeback_batch-Grows, enqueue_renames-Grows}

abbrev pub is_queued : Phase → Bool
is_queued gone = false
is_queued (queued s) = true

-- A job had the id at some point of the history, its start and its end included.
unfoldable pub saw : ℕ → List Op → Table → Bool
saw id [] t = is_queued (phase id t)
saw id (o ∷ os) t = let later = saw id os (apply o t) in is_queued (phase id t) || later

-- Ids are counted up only (AUTOINCREMENT).
abbrev pub Counts : Table → Table → Type 0
Counts t u = t.next_id ≤ u.next_id

claim_next-Counts :
    (kinds : Kind → Bool) (now : ℕ) (t : Table) → Counts t (claim_next kinds now t).1
claim_next-Counts kinds now t = by_claim (claim_next kinds now t) (claim_next-Claimed kinds now t)
  where
    by_claim : (o : Option Row × Table) → Claimed kinds now t o → Counts t o.1
    by_claim (none, t') (h, e) = subst (Counts t) (sym e) (omega arith)
    by_claim (some job, t') (r, (i, (can, (low, (e, e'))))) =
        subst (Counts t) (sym e') (omega arith)

finish_writeback-Counts :
    (i : ℕ) (is_ok : Bool) (msg : Str) (now : ℕ) (t : Table)
    → Counts t (finish_writeback i is_ok msg now t)
unfolding finish_writeback
finish_writeback-Counts i true msg now t = omega arith
finish_writeback-Counts i false msg now t = omega arith

requeue_row-Counts : (o : Option Row) (now : ℕ) (t : Table) → Counts t (requeue_row o now t)
requeue_row-Counts none now t = omega arith
requeue_row-Counts (some r) now t = omega arith

apply-Counts : (o : Op) (t : Table) → Safe t → Counts t (apply o t)
unfolding enqueue_writeback recover_running retry_failed dismiss_failed fail_rename_jobs
    delete_video fold_video requeue_writeback enqueue_maintenance
apply-Counts (Op.enqueue v payload batch now) t s = omega arith
apply-Counts (Op.enqueue_batch jobs now) t s = (enqueue_writeback_batch-Grows 0 jobs now t s).0
apply-Counts (Op.enqueue_one v payload now) t s = ground arith
apply-Counts (Op.enqueue_names jobs batch now) t s = (enqueue_renames-Grows 0 jobs batch now t s).0
apply-Counts (Op.claim_write now) t s = claim_next-Counts write_lane now t
apply-Counts (Op.claim_maintenance now) t s = claim_next-Counts maintenance_lane now t
apply-Counts (Op.finish i is_ok msg now) t s = finish_writeback-Counts i is_ok msg now t
apply-Counts (Op.recover now) t s = omega arith
apply-Counts (Op.retry v k now) t s = omega arith
apply-Counts (Op.dismiss v k) t s = omega arith
apply-Counts (Op.requeue i now) t s = requeue_row-Counts (first (select (has_id i) t.rows)) now t
apply-Counts (Op.fail_names v msg now) t s = omega arith
apply-Counts (Op.remove v) t s = omega arith
apply-Counts (Op.fold evidence older newer) t s =
    if_both (Counts t) (evidence && is_idle older newer t) (omega arith) (omega arith)

run-Counts : (ops : List Op) (t : Table) → Safe t → Counts t (run ops t)
unfolding run
run-Counts [] t s = omega arith
run-Counts (o ∷ os) t s =
    let a = apply-Counts o t s in
    let b = run-Counts os (apply o t) (apply-Safe o t s) in omega (arith, a, b)

-- An id in the queue has been counted past.
phase-Counts :
    (id : ℕ) (t : Table) → Safe t → is_queued (phase id t) ≡ true → leb t.next_id id ≡ false
phase-Counts id t s h = elim (Bool-cases (leb t.next_id id)) [
  | inr e ↦ e
  | inl e ↦
      let a = ap phase_of (none-count (has_id id) t.rows (s.fresh id (ground arith))) in absurd (cc)
]

-- So has an id that the history saw: it is not given again.
pub saw-Counts :
    (id : ℕ) (ops : List Op) (t : Table)
    → Safe t
    → saw id ops t ≡ true
    → leb (run ops t).next_id id ≡ false
unfolding run saw
saw-Counts id [] t s h = phase-Counts id t s h
saw-Counts id (o ∷ os) t s h =
    let k = saw-Counts id os (apply o t) (apply-Safe o t s) in
    elim (Bool-cases (is_queued (phase id t))) [
      | inl e ↦
          let a = phase-Counts id t s e in let b = run-Counts (o ∷ os) t s in ground (arith, b)
      | inr e ↦ k (ground arith)
    ]

-- What is allowed for an id that may be new is allowed for one that is.
pub may_become-new :
    (b c : Bool) (x y : Phase)
    → may_become b x y ≡ true
    → (b ≡ true → c ≡ true)
    → may_become c x y ≡ true
may_become-new b c x y h k = ground arith
