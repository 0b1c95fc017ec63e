-- ===== src/Query.antt =====
-- internal/query: the F87 query language. Parsing to a tree, the tree's own tests, and printing.
pub mod Tree
pub mod Result
pub mod Lexer
pub mod Values
pub mod Dates
pub mod Term
pub mod Parser
pub mod Print
mod Tests
