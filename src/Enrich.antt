-- ===== src/Enrich.antt =====
-- internal/enrich/pacer.go: the pace at which a provider is called, and the pause it asks for.
pub mod Limit
pub mod Pacer
mod Tests
