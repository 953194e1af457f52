-- ===== src/Game.antt =====
-- The game: poker/game.py, class PokerGame, by the parts of its behaviour.
pub mod State
pub mod Round
pub mod Action
pub mod Offer
pub mod Lowered
pub mod Rotation
pub mod Refusal
pub mod Table
pub mod Frame
pub mod Money
pub mod Seated
pub mod Turn
pub mod Hand
pub mod Board
pub mod Play
pub mod Apart
pub mod Setup
pub mod Tables
pub mod Configs
pub mod Evening
pub mod Tests
mod SetupTests
pub mod Pots
pub mod Showdown
