-- ===== src/Daemon.antt =====
-- internal/daemon: the worker pool and the daemon around it.
pub mod Interfaces
pub mod Applying
pub mod Planning
pub mod Pool
pub mod Hooks
pub mod Handlers
pub mod Execute
pub mod Summary
pub mod Worker
pub mod Recovery
pub mod Outcome
pub mod Frame
pub mod Processing
pub mod Cleanup
pub mod Secrets
