-- ===== src/System/Programs.antt =====
-- Every program keeps what its effects keep, on every branch and whatever the servers answer.
pub mod Base
pub mod Handlers
pub mod Worker
pub mod Reaper
pub mod Api
pub mod Ingestion
