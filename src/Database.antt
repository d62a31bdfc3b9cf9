-- ===== src/Database.antt =====
-- The database (app/database/database.py): the classes stored in Redis, one module for each, and the
-- state of Redis as a record with a table for each family of keys (Schema).
pub mod Schema
pub mod Sets
pub mod Votes
pub mod Grouping
pub mod Events
pub mod Filters
pub mod Rewards
pub mod Keys
pub mod Redis
pub mod Kept
