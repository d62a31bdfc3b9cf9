-- ===== src/Database/Redis.antt =====
-- Redis as app/database/database.py uses it: a cell for each key, the commands that the methods send, and
-- what they do to the database that the cells stand for.
pub mod Cells
pub mod Commands
pub mod Calls
pub mod Places
pub mod View
pub mod Writes
pub mod Deletion
pub mod Refinement
