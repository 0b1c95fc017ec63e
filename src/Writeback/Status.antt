-- ===== src/Writeback/Status.antt =====
-- videoQueueStatus and GetWritebackBatchStatus of internal/repo/writequeue.go: what the pages show of a
-- video's lane and of a batch.
pub mod Sorted
pub mod Shown
use holodex.Prelude.{
  ℕ, ◌+◌, Str, Bool, true, false, ◌&&◌, ◌||◌, Option, none, some, List, [], ◌∷◌, ◌=s◌, ◌==◌, ltb,
  if◌then◌else◌,
}
use holodex.Writeback.Table.{
  Kind, Status, pending, running, failed, Row, Table, count, select, of_lane, is_pending,
  is_running,
}

-- laneStatus with the two payloads, of which the pending one is shown if it is not empty
pub record LaneStatus : Type 0 where
  pub is_pending : Bool
  pub is_failed : Bool
  pub is_running : Bool
  pub error : Str
  pub started_at : Option ℕ
  pub pending_payload : Str
  pub failed_payload : Str

abbrev pub updated_before : Row → Row → Bool
updated_before r s =
    ltb r.updated_at s.updated_at || (r.updated_at == s.updated_at && ltb r.id s.id)

unfoldable pub place_row : Row → List Row → List Row
place_row r [] = r ∷ []
place_row r (s ∷ ss) =
    let rest = place_row r ss in if updated_before s r then s ∷ rest else r ∷ s ∷ ss

-- ORDER BY updated_at ASC, id ASC
unfoldable pub by_update : List Row → List Row
by_update [] = []
by_update (r ∷ rs) = place_row r (by_update rs)

-- The switch on a row's status
abbrev pub show_row : Status → Row → LaneStatus → LaneStatus
show_row pending r out = record out { is_pending = true; pending_payload = r.payload }
show_row running r out = record out {
  is_pending = true;
  pending_payload = r.payload;
  is_running = true;
  started_at = some r.updated_at;
}
show_row failed r out = record out { is_failed = true; error = r.error; failed_payload = r.payload }

-- The loop over the rows
unfoldable pub show_rows : List Row → LaneStatus → LaneStatus
show_rows [] out = out
show_rows (r ∷ rs) out = show_rows rs (show_row r.status r out)

abbrev pub nothing : LaneStatus
nothing = record {
  is_pending = false;
  is_failed = false;
  is_running = false;
  error = [];
  started_at = none;
  pending_payload = [];
  failed_payload = [];
}

-- videoQueueStatus
unfoldable pub video_queue_status : ℕ → Kind → Table → LaneStatus
video_queue_status v k t = show_rows (by_update (select (of_lane v k) t.rows)) nothing

-- out.payload
abbrev pub payload_of : LaneStatus → Str
payload_of out = if out.pending_payload =s [] then out.failed_payload else out.pending_payload

-- The counts of GetWritebackBatchStatus that the queue gives: pending and running.
unfoldable pub batch_counts : Str → Table → ℕ × ℕ
batch_counts batch t = (
  count (λ r. (r.batch_id =s batch) && is_pending r.status) t.rows,
  count (λ r. (r.batch_id =s batch) && is_running r.status) t.rows,
)
