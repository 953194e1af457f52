-- ===== src/Tutorial.antt =====
-- The hand evaluator that the tutorial agent has as a tool:
-- tutorial_agents/agent_with_tool/hand_evaluator_tool.py.
pub mod Parse
pub mod Simple
pub mod Tool
pub mod RoundTrip
pub mod Royal
pub mod Agrees
pub mod Branches
pub mod Printed
pub mod Reports
mod Tests
