-- ===== src/Store/Sql.antt =====
-- The statements of internal/store/queries.sql against the tables and constraints of migrations/.
-- A statement is atomic: it answers with a row or an error, and an error leaves the tables alone.
-- `Stamp` is what the server supplies: NOW(), a gen_random_uuid(), the text of an error, and the
-- ids of the rows that other transactions hold locked.
pub mod Base
pub mod Devices
pub mod Jobs
pub mod Records
pub mod Stale
pub mod Reads
