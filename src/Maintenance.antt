-- ===== src/Maintenance.antt =====
-- internal/maintenance/swap.go and the held_originals journal of internal/repo/held_originals.go:
-- the two-rename swap, its undo, and what boot recovery does with a journal row.
pub mod Disk
pub mod Hoare
pub mod Swap
mod Paths
mod Journal
mod Steps
mod Reads
pub mod Guard
mod Restoring
pub mod Recovery
mod Clean
pub mod Safety
pub mod Undo
pub mod Discarding
mod Tests
