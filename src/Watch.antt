-- ===== src/Watch.antt =====
-- The filters on the events of contracts: app/events/verity_event_filters.py and
-- app/events/event_registry_filter.py.
pub mod Handlers
pub mod Answers
pub mod Discovery
pub mod Recovery
pub mod Rounds
pub mod Registry
pub mod Kept
