-- ===== src/Writeback.antt =====
-- internal/repo/writequeue.go and the queue half of internal/repo/rename_queue.go: the durable queue
-- of changes to media files.
pub mod Table
pub mod Claims
pub mod Count
pub mod Queue
pub mod Steps
pub mod Safe
pub mod Exclusive
pub mod Lanes
pub mod Single
pub mod Outcomes
pub mod Status
pub mod Life
pub mod Snapshot
mod Tests
