-- ===== src/Writeback/Queue.antt =====
-- The operations of internal/repo/writequeue.go and internal/repo/rename_queue.go on the queue. A
-- statement that the database fails changes nothing and returns its error, and is left out.
use holodex.Prelude.{
  ℕ, suc, Str, Bool, true, false, not, ◌&&◌, ◌||◌, Option, none, some, List, [], ◌∷◌, ◌++◌, ltb,
  ◌=s◌, if◌then◌else◌,
}
use holodex.Writeback.Table.{
  Kind, write, maintenance, rename, Status, pending, running, failed, ◌=k◌, is_pending, is_running,
  is_failed, is_active, Row, Table, count, has, select, delete_where, update_where, oldest, first,
  has_id, has_video, of_lane,
}

abbrev pub new_row : ℕ → ℕ → Kind → Str → Str → ℕ → ℕ → Row
new_row id v k payload batch attempts now = record {
  id = id;
  video_id = v;
  kind = k;
  payload = payload;
  status = pending;
  attempts = attempts;
  error = [];
  batch_id = batch;
  enqueued_at = now;
  updated_at = now;
}

-- INSERT of a new row, which takes the next id
abbrev pub insert : ℕ → Kind → Str → Str → ℕ → ℕ → Table → Table
insert v k payload batch attempts now t = record {
  rows = t.rows ++ (new_row t.next_id v k payload batch attempts now ∷ []);
  next_id = suc t.next_id;
}

-- EnqueueWriteback: the new id, and the table.
unfoldable pub enqueue_writeback : ℕ → Str → Str → ℕ → Table → ℕ × Table
enqueue_writeback v payload batch now t = (t.next_id, insert v write payload batch 0 now t)

-- WritebackJobInsert
pub record JobInsert : Type 0 where
  pub video_id : ℕ
  pub payload : Str
  pub batch_id : Str

-- EnqueueWritebackBatch, one transaction
unfoldable pub enqueue_writeback_batch : List JobInsert → ℕ → Table → List ℕ × Table
enqueue_writeback_batch [] now t = ([], t)
enqueue_writeback_batch (j ∷ js) now t =
    let rest =
      enqueue_writeback_batch js now (insert j.video_id write j.payload j.batch_id 0 now t) in
    (t.next_id ∷ rest.0, rest.1)

-- The row of a lane that failed before is dropped, and a new one queued.
abbrev pub replace_failed : ℕ → Kind → Str → Str → ℕ → Table → Table
replace_failed v k payload batch now t =
    insert v k payload batch 0 now
      (record t { rows = delete_where (λ r. of_lane v k r && is_failed r.status) t.rows })

-- EnqueueMaintenance: none is ErrMaintenanceInFlight.
unfoldable pub enqueue_maintenance : ℕ → Str → ℕ → Table → Option ℕ × Table
enqueue_maintenance v payload now t =
    if ltb 0 (count (λ r. of_lane v maintenance r && is_active r.status) t.rows)
    then (none, t)
    else (some t.next_id, replace_failed v maintenance payload [] now t)

abbrev pub enqueue_rename : ℕ → Str → Str → ℕ → Table → Table
enqueue_rename v payload batch now t =
    if has (λ r. of_lane v rename r && is_active r.status) t.rows
    then t
    else replace_failed v rename payload batch now t

-- EnqueueRenames, without the number of rows it returns
unfoldable pub enqueue_renames : List (ℕ × Str) → Str → ℕ → Table → Table
enqueue_renames [] batch now t = t
enqueue_renames (j ∷ js) batch now t =
    enqueue_renames js batch now (enqueue_rename j.0 j.1 batch now t)

-- The lanes: ClaimNextWriteback claims tag writes and renames, ClaimNextMaintenance the others.
abbrev pub write_lane : Kind → Bool
write_lane k = k =k write || k =k rename

abbrev pub maintenance_lane : Kind → Bool
maintenance_lane k = k =k maintenance

-- status = 'pending' AND kind IN (...) AND video_id NOT IN (SELECT ... WHERE status = 'running')
abbrev pub claimable : (Kind → Bool) → List Row → Row → Bool
claimable kinds rows r =
    is_pending r.status
    && kinds r.kind
    && not (has (λ s. has_video r.video_id s && is_running s.status) rows)

abbrev pub mark_running : ℕ → ℕ → Row → Row
mark_running attempts now r = record r { status = running; attempts = attempts; updated_at = now }

abbrev pub claim_row : Option Row → ℕ → Table → Option Row × Table
claim_row none now t = (none, t)
claim_row (some r) now t = (
  some (record r { attempts = suc r.attempts }),
  record t { rows = update_where (has_id r.id) (mark_running (suc r.attempts) now) t.rows },
)

-- claimNext: the job with its attempts counted, or none.
unfoldable pub claim_next : (Kind → Bool) → ℕ → Table → Option Row × Table
claim_next kinds now t = claim_row (oldest (select (claimable kinds t.rows) t.rows)) now t

-- FinishWriteback
unfoldable pub finish_writeback : ℕ → Bool → Str → ℕ → Table → Table
finish_writeback id true msg now t = record t { rows = delete_where (has_id id) t.rows }
finish_writeback id false msg now t = record t {
  rows =
      update_where (has_id id) (λ r. record r { status = failed; error = msg; updated_at = now })
        t.rows;
}

-- What GetWritebackJobStatus reports: WritebackDone, or the row's status with its error.
pub data JobStatus : Type 0 where
  done : JobStatus
  stored : Status → Str → JobStatus

abbrev pub status_of : Option Row → JobStatus
status_of none = done
status_of (some r) = stored r.status r.error

-- GetWritebackJobStatus
unfoldable pub get_job_status : ℕ → Table → JobStatus
get_job_status id t = status_of (first (select (has_id id) t.rows))

-- RecoverRunningWritebacks
unfoldable pub recover_running : ℕ → Table → Table
recover_running now t = record t {
  rows =
      update_where (λ r. is_running r.status) (λ r. record r { status = pending; updated_at = now })
        t.rows;
}

-- PendingWritebackCount
unfoldable pub pending_count : Table → ℕ
pending_count t = count (λ r. r.kind =k write && is_active r.status) t.rows

-- retryFailed, without the number of rows it returns
unfoldable pub retry_failed : ℕ → Kind → ℕ → Table → Table
retry_failed v k now t = record t {
  rows =
      update_where (λ r. of_lane v k r && is_failed r.status)
        (λ r. record r { status = pending; error = []; updated_at = now }) t.rows;
}

-- dismissFailed, without the number of rows it returns
unfoldable pub dismiss_failed : ℕ → Kind → Table → Table
dismiss_failed v k t = record t {
  rows = delete_where (λ r. of_lane v k r && is_failed r.status) t.rows;
}

abbrev pub requeue_row : Option Row → ℕ → Table → Table
requeue_row none now t = t
requeue_row (some r) now t = insert r.video_id r.kind r.payload r.batch_id r.attempts now t

-- RequeueWriteback: a copy with a new id, then the row itself is deleted.
unfoldable pub requeue_writeback : ℕ → ℕ → Table → Table
requeue_writeback id now t =
    let copied = requeue_row (first (select (has_id id) t.rows)) now t in
    record copied { rows = delete_where (has_id id) copied.rows }

-- BatchRenameJobs
unfoldable pub batch_rename_jobs : Str → Table → List Row
batch_rename_jobs batch t =
    select (λ r. r.kind =k rename && (r.batch_id =s batch) && is_active r.status) t.rows

-- HasRenameJob
unfoldable pub has_rename_job : ℕ → Table → Bool
has_rename_job v t = has (λ r. of_lane v rename r && is_active r.status) t.rows

-- FailRenameJobs
unfoldable pub fail_rename_jobs : ℕ → Str → ℕ → Table → Table
fail_rename_jobs v msg now t = record t {
  rows =
      update_where (λ r. of_lane v rename r && is_active r.status)
        (λ r. record r { status = failed; error = msg; updated_at = now }) t.rows;
}

-- HardDelete of a video, whose rows go by ON DELETE CASCADE
unfoldable pub delete_video : ℕ → Table → Table
delete_video v t = record t { rows = delete_where (has_video v) t.rows }

-- foldIdleSQL on the queue: neither video has a job pending or running.
abbrev pub is_idle : ℕ → ℕ → Table → Bool
is_idle older newer t =
    not (has (λ r. (has_video older r || has_video newer r) && is_active r.status) t.rows)

-- FoldMovedVideo on the queue: evidence is what it checks of the two videos and their held originals.
unfoldable pub fold_video : Bool → ℕ → ℕ → Table → Table
fold_video evidence older newer t =
    if evidence && is_idle older newer t
    then record t {
      rows = update_where (has_video newer) (λ r. record r { video_id = older }) t.rows;
    }
    else t
