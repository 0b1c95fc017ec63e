-- ===== src/Writeback/Steps.antt =====
-- The operations that change the queue, in any order: requests, workers, boot recovery and the scanner.
use holodex.Prelude.{ℕ, Str, Bool, List, [], ◌∷◌}
use holodex.Writeback.Table.{Kind, Table}
use holodex.Writeback.Queue.{
  JobInsert, write_lane, maintenance_lane, enqueue_writeback, enqueue_writeback_batch,
  enqueue_maintenance, enqueue_renames, claim_next, finish_writeback, recover_running, retry_failed,
  dismiss_failed, requeue_writeback, fail_rename_jobs, delete_video, fold_video,
}

pub data Op : Type 0 where
  enqueue : (video : ℕ) (payload batch : Str) (now : ℕ) → Op
  enqueue_batch : (jobs : List JobInsert) (now : ℕ) → Op
  enqueue_one : (video : ℕ) (payload : Str) (now : ℕ) → Op
  enqueue_names : (jobs : List (ℕ × Str)) (batch : Str) (now : ℕ) → Op
  claim_write : (now : ℕ) → Op
  claim_maintenance : (now : ℕ) → Op
  finish : (id : ℕ) (is_ok : Bool) (msg : Str) (now : ℕ) → Op
  recover : (now : ℕ) → Op
  retry : (video : ℕ) (kind : Kind) (now : ℕ) → Op
  dismiss : (video : ℕ) (kind : Kind) → Op
  requeue : (id now : ℕ) → Op
  fail_names : (video : ℕ) (msg : Str) (now : ℕ) → Op
  remove : (video : ℕ) → Op
  fold : (evidence : Bool) (older newer : ℕ) → Op

abbrev pub apply : Op → Table → Table
apply (enqueue v payload batch now) t = (enqueue_writeback v payload batch now t).1
apply (enqueue_batch jobs now) t = (enqueue_writeback_batch jobs now t).1
apply (enqueue_one v payload now) t = (enqueue_maintenance v payload now t).1
apply (enqueue_names jobs batch now) t = enqueue_renames jobs batch now t
apply (claim_write now) t = (claim_next write_lane now t).1
apply (claim_maintenance now) t = (claim_next maintenance_lane now t).1
apply (finish id is_ok msg now) t = finish_writeback id is_ok msg now t
apply (recover now) t = recover_running now t
apply (retry v k now) t = retry_failed v k now t
apply (dismiss v k) t = dismiss_failed v k t
apply (requeue id now) t = requeue_writeback id now t
apply (fail_names v msg now) t = fail_rename_jobs v msg now t
apply (remove v) t = delete_video v t
apply (fold evidence older newer) t = fold_video evidence older newer t

unfoldable pub run : List Op → Table → Table
run [] t = t
run (o ∷ os) t = run os (apply o t)

-- The table after the migration that creates it
abbrev pub empty : Table
empty = record { rows = []; next_id = 1 }
