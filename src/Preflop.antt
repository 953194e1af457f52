-- ===== src/Preflop.antt =====
-- The pre-flop tools of team 1's agent: agents/team1_agent/preflop/tools/.
pub mod Classify
pub mod Suggest
pub mod Letters
pub mod Printed
pub mod Amounts
mod Tests
