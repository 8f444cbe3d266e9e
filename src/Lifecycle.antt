-- ===== src/Lifecycle.antt =====
-- The life of a job across the whole orchestrator: which statuses a job of each operation can be in.
-- It is about the statements of internal/db and about everything that issues them.
pub mod Frame
pub mod Names
pub mod Rows
pub mod Statements
pub mod Claimed
pub mod Requests
pub mod Stuck
pub mod Planless
pub mod Settled
pub mod Settling
pub mod Final
pub mod System
