-- ===== src/Rewards.antt =====
-- The rewards of an event (app/ethereum/rewards.py): the join and dispute stakes to return, the
-- distribution of the balances over the users in consensus, and the dictionary of both.
pub mod Stakes
pub mod Distribution
pub mod Calculation
pub mod Bounds
pub mod Chain
