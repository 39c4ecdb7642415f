-- ===== src/System.antt =====
-- The processes together: what every one of them keeps, and what holds of any interleaving.
pub mod Kept
pub mod Programs
pub mod Rows
pub mod Invariants
pub mod Submitted
pub mod Delivered
pub mod Telemetry
pub mod Cycle
pub mod Run
pub mod Reach
pub mod Identity
