-- ===== src/Extract.antt =====
-- internal/extract: how a value read from a file name is scored, and whether it is applied without
-- review.
pub mod Confidence
pub mod Routing
pub mod Gate
mod Tests
