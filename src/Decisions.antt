-- ===== src/Decisions.antt =====
-- What automatic players decide: poker/player_models.py, RandomPlayer.make_decision, and what
-- Player._parse_llm_response does with an answer once its JSON has been read.
pub mod Random
pub mod Answer
pub mod Accepted
pub mod Values
pub mod Bounded
mod Tests
