-- ===== src/Rename.antt =====
-- internal/rename: the names that a run of renames gives the videos of one folder.
pub mod Name
pub mod Collide
pub mod Settle
pub mod Free
pub mod Apart
pub mod Spared
mod Tests
