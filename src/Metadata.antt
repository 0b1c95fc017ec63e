-- ===== src/Metadata.antt =====
-- internal/metadata/matroska.go: the reader of Matroska tags, from bytes to the tags of the video.
pub mod Vint
pub mod Elements
pub mod Tags
pub mod Walk
pub mod Select
mod Tests
