-- ===== src/Lib.antt =====
-- Holodex: the parts of the Go server that decide things, modelled from their source.
--
-- The server keeps a library of videos: it scans folders, reads metadata, merges what file names,
-- tags, providers and the owner say, answers queries, and changes files on disk. Modelled here:
--
-- * Maintenance.* is internal/maintenance/swap.go with internal/repo/held_originals.go: an edit
--   replaces a file by a new one and holds the original back, over two renames and a journal row.
--   Disk has the files, the journal and a script of faults: each call on the disk or the database
--   takes one entry of the script, which lets it succeed, fails it, or crashes the process there.
--   Journal, Paths and Swap have the operations (swap, restore, discard, recover_one and
--   recover_swaps are Swap, Restore, Discard, recoverOne and RecoverSwaps). Hoare, Steps and Reads
--   are rules for the calls; Guard, Restoring, Recovery, Clean, Safety, Undo and Discarding the
--   proofs.
-- * Query.* is internal/query: Tree and Result are query.go and errors.go, Lexer, Values, Term and
--   Parser are parse.go, Dates is the reading half of dates.go, Print is print.go. A text is the
--   list of its bytes. Go's Unicode tables are a parameter (Go.Unicode). The lexer takes one unit of
--   fuel for each byte, the parser four for each token and four more: Lexer.Spans and Parser.Total
--   show that this is enough. Error messages, offsets in UTF-16 units and Bounds are left out.
-- * Queue.* is internal/thumbnail/queue.go and internal/montage/queue.go, whose push differs, with
--   the workers of both packages. Pool is a step relation in which pushes, signals and workers
--   interleave; Keeps is the interface that the workers rely on and both pushes fill. Wakeups and
--   Order are the proofs. What a worker does with its id is left out.
-- * Rename.* is internal/rename/collide.go and the rules on a whole name of internal/rename/name.go.
--   PlanFolder's outer loop takes one round more than there are wants, which Settle shows to be
--   enough; Free, Apart and Spared are about the names given. A plan is a list of outcomes beside
--   their wants, which stands for PlanFolder's map by the video's id: the wants of a call have
--   different ids. NFC, case folding and path rules are parameters (Rename.Name.Names). Maps are
--   functions, and ids are numbers from 1 on.
-- * Extract.* is internal/extract/confidence.go and routing.go, with the part of Process that scores
--   and routes. Scores are in hundredths.
-- * Metadata.* is internal/metadata/matroska.go. Vint, Elements, Tags and Walk read a file's bytes:
--   integers of variable length, elements, the tags of a payload, and the walk over the file, with
--   the tags found so far beside the error that ends it. children takes one round for each byte, and
--   the walk one for each byte of the file's size and two more: Elements.Enough and Walk.Ends show
--   that this is enough. Positions past 2 ^ 63 are the negative ones that an int64 wraps to. Select
--   is selectMatroskaTags, with the regular expressions and Unicode's cases as parameters.
-- * Writeback.* is the queue of changes to files. Table has the SQL statements on writeback_queue as
--   functions on its rows, Queue the operations of internal/repo/writequeue.go and of the queue's
--   part of internal/repo/rename_queue.go, with the fold of internal/repo/video_fold.go; Steps runs
--   them in any order. Status is what a page shows. Life is the abstract machine of one job, which
--   Life.Steps shows the queue to implement, with the ids that a history saw in Life.History.
--   Claims, Exclusive, Single and Outcomes are the other proofs, Count, Safe and Lanes what they
--   share. Snapshot is snapshotBeforeWrite of internal/writequeue/writequeue.go, run in attempts
--   that a crash may cut short. Times are whole seconds. A statement that the database refuses
--   changes nothing, which is left out for the queue and is a value for the snapshots.
-- * Enrich.* is internal/enrich/pacer.go. Limit has Normalize and the durations, where a float64 is the
--   number of its bits and a Duration an int64; Pacer has the pause and the calls that share it, as
--   steps in any order: admit, the part of acquire under its lock (ask), the end of its sleep (wake),
--   and observe. Pacer.Holds and Pacer.Closed are the proofs. The token bucket of
--   golang.org/x/time/rate is a parameter (Enrich.Pacer.Bucket).
-- * Go.* has what these parts use of Go's packages strings and strconv; Prelude.* is shared.
--
-- Machine integers: ids, years and counts are natural numbers; ParseInt keeps its bounds of 64 bits.
-- Not modelled: HTTP handlers and the SQL of other tables, image and media files (I/O), and, so far,
-- the resolver, the batch that a write job builds and its revert, the rename templates and worker, and
-- the scanner's decisions.
pub mod Prelude
pub mod Go
pub mod Maintenance
pub mod Query
pub mod Queue
pub mod Extract
pub mod Rename
pub mod Metadata
pub mod Writeback
pub mod Enrich
