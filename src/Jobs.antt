-- ===== src/Jobs.antt =====
-- internal/jobs: the types, tiers and states of jobs.
pub mod Types
pub mod State
pub mod Key
pub mod Tiers
pub mod Graph
