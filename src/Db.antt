-- ===== src/Db.antt =====
-- internal/db: the store, one function for each method of `Store`. A query is the text of its SQL
-- statement as a function of the tables.
pub mod Timeouts
pub mod Claiming
pub mod Rows
pub mod Selection
pub mod Updates
pub mod Jobs
pub mod Queue
pub mod Projects
pub mod Claims
pub mod Lookup
pub mod Answers
