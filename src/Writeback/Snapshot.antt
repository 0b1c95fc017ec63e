-- ===== src/Writeback/Snapshot.antt =====
-- snapshotBeforeWrite of internal/writequeue/writequeue.go with the writing steps of process, and the
-- table file_writeback_snapshots of internal/repo/writeback_snapshots.go. What a job does to a file and
-- what is read of it are parameters; a call works, returns an error, or is where the process dies.
pub mod Kept
mod Tests
use holodex.Prelude.{
  ℕ, Str, Bool, true, false, ◌&&◌, ◌||◌, Option, none, some, List, [], ◌∷◌, ◌++◌, map, ◌==◌, ◌=s◌,
  if◌then◌else◌,
}
use holodex.Go.Strconv.{format_int}

-- WritebackSnapshot, with its batch
pub record Snap : Type 0 where
  pub video_id : ℕ
  pub batch : Str
  pub field : Str
  pub prior : Str

-- The columns of WritebackJob that a snapshot reads
pub record JobKey : Type 0 where
  pub id : ℕ
  pub video_id : ℕ
  pub batch_id : Str

pub data Call : Type 0 where
  works fails dies : Call

-- The calls of one attempt at a job, and whether it gets to replace the file.
pub record Attempt : Type 0 where
  pub lookup : Call
  pub read : Call
  pub insert : Call
  pub is_written : Bool

abbrev pub is_of : Str → ℕ → Snap → Bool
is_of batch v s = (s.batch =s batch) && s.video_id == v

-- SnapshotExistsForVideo
unfoldable pub snapshot_exists : Str → ℕ → List Snap → Bool
snapshot_exists batch v [] = false
snapshot_exists batch v (s ∷ ss) = is_of batch v s || snapshot_exists batch v ss

-- The rows of InsertWritebackSnapshots
unfoldable pub snapshot_rows : ℕ → Str → List (Str × Str) → List Snap
snapshot_rows v batch [] = []
snapshot_rows v batch (p ∷ ps) =
    (record { video_id = v; batch = batch; field = p.0; prior = p.1 }) ∷ snapshot_rows v batch ps

-- job.BatchID, or the job's own id
abbrev pub batch_of : JobKey → Str
batch_of job = elim job.batch_id [ [] ↦ format_int job.id | c ∷ s ↦ c ∷ s ]

module _ {File : Type 0} (value : File → Str → Str) (written : File → File) (keys : List Str) where
  -- The file of the job's video, and the snapshots.
  pub record World : Type 0 where
    pub file : File
    pub snaps : List Snap

  -- The result of a step: the process died, or it goes on with a value.
  pub data Stepped : Type 0 where
    died : World → Stepped
    went_on : Str → World → Stepped

  -- readCurrent of the job's fields
  abbrev pub read_current : File → List (Str × Str)
  read_current f = map (λ k. (k, value f k)) keys

  abbrev pub insert_snapshots : Call → JobKey → World → Stepped
  insert_snapshots works job w = went_on (batch_of job) (record w {
    snaps = w.snaps ++ snapshot_rows job.video_id (batch_of job) (read_current w.file);
  })
  insert_snapshots fails job w = went_on [] w
  insert_snapshots dies job w = died w

  abbrev pub capture : Attempt → JobKey → World → Stepped
  capture a job w = elim a.read [
    | works ↦ insert_snapshots a.insert job w
    | fails ↦ went_on [] w
    | dies ↦ died w
  ]

  -- snapshotBeforeWrite: an error of the lookup is logged, and the values are read.
  unfoldable pub snapshot_before_write : Attempt → JobKey → World → Stepped
  snapshot_before_write a job w = elim a.lookup [
    | works ↦
        if snapshot_exists (batch_of job) job.video_id w.snaps
        then went_on (batch_of job) w
        else capture a job w
    | fails ↦ capture a job w
    | dies ↦ died w
  ]

  -- q.write after it, if it replaces the file
  abbrev pub write_file : Bool → Stepped → World
  write_file true (went_on batch w) = record w { file = written w.file }
  write_file false (went_on batch w) = w
  write_file is_written (died w) = w

  -- One attempt at the job; what process does afterwards changes neither.
  abbrev pub attempt : JobKey → Attempt → World → World
  attempt job a w = write_file a.is_written (snapshot_before_write a job w)

  -- The attempts that RecoverRunningWritebacks makes possible
  unfoldable pub attempts : JobKey → List Attempt → World → World
  attempts job [] w = w
  attempts job (a ∷ later) w = attempts job later (attempt job a w)
