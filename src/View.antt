-- ===== src/View.antt =====
-- What an automatic player is told: poker/game_models.py, GameState and PlayerInfo, and
-- PokerGame.get_llm_game_state of poker/game.py.
pub mod Data
pub mod State
pub mod RoundTrip
pub mod Hidden
mod Tests
