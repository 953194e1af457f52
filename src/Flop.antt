-- ===== src/Flop.antt =====
-- Team 1's tools for the flop and later: agents/team1_agent/flop_strategy_agent/tools/.
pub mod Rank
pub mod Evaluate
pub mod Total
pub mod Highest
pub mod Printed
pub mod Suits
pub mod Runs
pub mod Counts
pub mod Category
pub mod Ranked
pub mod Agrees
pub mod Hands
pub mod Draws
pub mod Outs
mod Tests
