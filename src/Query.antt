-- ===== src/Query.antt =====
-- src/query.rs: options, result sets with their cursor, prepared statements, row streams.
pub mod Options
pub mod Rows
pub mod Statement
pub mod Stream
