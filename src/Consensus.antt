-- ===== src/Consensus.antt =====
-- Reaching consensus on an event (app/events/consensus.py).
pub mod Rules
pub mod Choice
pub mod Steps
pub mod Explorer
