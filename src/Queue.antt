-- ===== src/Queue.antt =====
-- The queue of transactions (app/queue_service/).
pub mod Transactions
pub mod Service
