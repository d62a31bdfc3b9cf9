-- ===== src/System/Index.antt =====
-- The index of the stored events in the worlds of System.
pub mod Invariant
