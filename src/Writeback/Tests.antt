-- ===== src/Writeback/Tests.antt =====
-- The queue of file changes, run on a few operations.
use holodex.Prelude.{In, subst, ◌&&◌, ℕ, ◌≡◌, refl, codes, true, false, List, [], ◌∷◌, arith, ◌==◌}
use holodex.Writeback.Table.{
  Kind, write, maintenance, Row, Table, count, of_lane, is_active, has_id, comes_before, select,
  has, pending, failed,
}
use holodex.Writeback.Queue.{
  write_lane, claim_next, finish_writeback, get_job_status, done, stored, requeue_writeback,
  enqueue_writeback,
}
use holodex.Writeback.Claims.{Claimed, claim_next-Claimed}
use holodex.Writeback.Life.Steps.{Lives, run-Follows}
use holodex.Writeback.Steps.{Op, run, empty}
use holodex.Writeback.Safe.{Safe}
use holodex.Writeback.Exclusive.{run-Exclusive}
use holodex.Writeback.Lanes.{Single}
use holodex.Writeback.Single.{run-Single}
use holodex.Writeback.Status.{video_queue_status}
use holodex.Writeback.Status.Shown.{ShownFor, video_queue_status-Shown}
use holodex.Writeback.Outcomes.{finish_writeback-Seen, requeue_writeback-Last}

-- Two jobs of video 7, one of video 8, and two claims: the second one takes the job of video 8.
abbrev busy_ops : List Op
busy_ops =
    Op.enqueue 7 (codes "a") [] 10
    ∷ Op.enqueue_one 7 (codes "flip") 11
    ∷ Op.enqueue 8 (codes "b") [] 12
    ∷ Op.claim_write 13
    ∷ Op.claim_maintenance 13
    ∷ Op.claim_write 13
    ∷ []

abbrev statuses : Table → List (ℕ × ℕ)
statuses t = pairs t.rows
  where
    pairs : List Row → List (ℕ × ℕ)
    pairs [] = []
    pairs (r ∷ rs) = (r.id, r.attempts) ∷ pairs rs

run_busy : statuses (run busy_ops empty) ≡ (1, 1) ∷ (2, 0) ∷ (3, 1) ∷ []
unfolding run claim_next holodex.Writeback.Table.oldest select enqueue_writeback
    holodex.Writeback.Queue.enqueue_maintenance count holodex.Writeback.Table.delete_where
    holodex.Writeback.Table.has holodex.Writeback.Table.update_where
run_busy = refl

run-Exclusive_example : Safe (run busy_ops empty)
run-Exclusive_example = run-Exclusive busy_ops

run-Single_example : Single (run busy_ops empty).rows
run-Single_example = run-Single busy_ops (refl, (refl, (refl, (refl, (refl, (refl, tt))))))

abbrev busy : Table
busy = run busy_ops empty

claim_next-Claimed_example : Claimed write_lane 20 busy (claim_next write_lane 20 busy)
claim_next-Claimed_example = claim_next-Claimed write_lane 20 busy

abbrev job : Row
job = record {
  id = 1;
  video_id = 7;
  kind = write;
  payload = codes "a";
  status = pending;
  attempts = 0;
  error = [];
  batch_id = [];
  enqueued_at = 10;
  updated_at = 10;
}

abbrev one_job : Table
one_job = record { rows = job ∷ []; next_id = 2 }

one_job-Safe : Safe one_job
unfolding run claim_next holodex.Writeback.Table.oldest select enqueue_writeback
    holodex.Writeback.Queue.enqueue_maintenance count holodex.Writeback.Table.delete_where
    holodex.Writeback.Table.has holodex.Writeback.Table.update_where
one_job-Safe = subst Safe queued (run-Exclusive (Op.enqueue 7 (codes "a") [] 10 ∷ []))
  where
    queued : run (Op.enqueue 7 (codes "a") [] 10 ∷ []) empty ≡ one_job
    queued = refl

finish_writeback-Seen_example :
    (get_job_status 1 (finish_writeback 1 false (codes "no space") 20 one_job)
      ≡ stored failed (codes "no space"))
    × ((i : ℕ)
        → (i == 1) ≡ false
        → get_job_status i (finish_writeback 1 false (codes "no space") 20 one_job)
          ≡ get_job_status i one_job)
unfolding has
finish_writeback-Seen_example = finish_writeback-Seen 1 false (codes "no space") 20 one_job refl

requeue_writeback-Last_example :
    (copy : Row) × ((copy
        ≡ record job { id = 2; status = pending; error = []; enqueued_at = 20; updated_at = 20 })
      × (In copy (requeue_writeback 1 20 one_job).rows
          × (((s : Row) → In s (requeue_writeback 1 20 one_job).rows → comes_before copy s ≡ false)
              × (get_job_status 1 (requeue_writeback 1 20 one_job) ≡ done))))
unfolding select
requeue_writeback-Last_example =
    requeue_writeback-Last 1 20 one_job job one_job-Safe refl (omega arith, tt)

-- Two videos, each with a re-encode that failed, are folded, and the owner retries: both run again.
abbrev fold_ops : List Op
fold_ops =
    Op.enqueue_one 7 (codes "flip") 10
    ∷ Op.claim_maintenance 11
    ∷ Op.finish 1 false (codes "e") 12
    ∷ Op.enqueue_one 9 (codes "flip") 13
    ∷ Op.claim_maintenance 14
    ∷ Op.finish 2 false (codes "e") 15
    ∷ Op.fold true 7 9
    ∷ Op.retry 7 maintenance 16
    ∷ []

run_fold : count (λ r. of_lane 7 maintenance r && is_active r.status) (run fold_ops empty).rows ≡ 2
unfolding run claim_next holodex.Writeback.Table.oldest select enqueue_writeback
    holodex.Writeback.Queue.enqueue_maintenance count holodex.Writeback.Table.delete_where
    holodex.Writeback.Table.has holodex.Writeback.Table.update_where
    holodex.Writeback.Queue.fold_video holodex.Writeback.Queue.retry_failed finish_writeback
run_fold = refl

-- Video 7 after its first job failed, beside a second that waits
abbrev failing_ops : List Op
failing_ops =
    Op.enqueue 7 (codes "a") [] 10
    ∷ Op.claim_write 11
    ∷ Op.finish 1 false (codes "no space") 12
    ∷ Op.enqueue 7 (codes "b") [] 13
    ∷ []

abbrev failing : Table
failing = run failing_ops empty

video_queue_status-Shown_example :
    ShownFor (select (of_lane 7 write) failing.rows) (video_queue_status 7 write failing)
video_queue_status-Shown_example = video_queue_status-Shown 7 write failing

-- Job 1 is gone at the end, and is not seen again when video 7 gets another job.
abbrev finished_ops : List Op
finished_ops = Op.enqueue 7 (codes "a") [] 10 ∷ Op.claim_write 11 ∷ Op.finish 1 true [] 12 ∷ []

run-Follows_example : Lives 1 finished_ops (Op.enqueue 7 (codes "b") [] 13)
run-Follows_example = run-Follows finished_ops (Op.enqueue 7 (codes "b") [] 13) 1
