-- ===== src/Store.antt =====
-- internal/store: the tables, the sessions with the database, and the operations.
pub mod Advance
pub mod Db
pub mod Session
pub mod Results
pub mod Tables
pub mod Take
pub mod Update
pub mod Merge
pub mod Writes
pub mod Changes
pub mod Close
pub mod Create
pub mod Incident
pub mod Rescore
pub mod Review
pub mod Requests
