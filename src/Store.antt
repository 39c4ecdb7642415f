-- ===== src/Store.antt =====
-- internal/store and migrations: the tables, the statements over them, and the query methods.
pub mod Rows
pub mod Sql
pub mod Queries
pub mod Sound
