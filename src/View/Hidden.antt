-- ===== src/View/Hidden.antt =====
-- What `get_llm_game_state` of poker/game.py does not tell: the other players' cards and the deck.
use adk_poker.Base.{
  ℕ, suc, ◌≡◌, refl, sym, ap, ◌∙◌, inl, inr, List, [], ◌∷◌, ◌==◌, if◌then◌else◌, Bool-cases,
  Option-cases, none, some,
}
use adk_poker.Cards.{Card}
use adk_poker.Player.{Player, is_active}
use adk_poker.Game.State.{Game, find_player}
use adk_poker.Game.Round.{big_blind_seat}
use adk_poker.Game.Offer.{is_big_blind_option, offers_to, get_available_actions}
use adk_poker.View.State.{players_info, viewer, get_llm_game_state}

-- Whoever has not this id holds other cards.
abbrev pub redeal : (ℕ → List Card) → ℕ → List Player → List Player
redeal cards id [] = []
redeal cards id (p ∷ ps) =
    (if p.id == id then p else record p { hole_cards = cards p.id }) ∷ redeal cards id ps

-- The same table with other hidden cards.
abbrev pub other_cards : (ℕ → List Card) → List Card → ℕ → Game → Game
other_cards cards deck id g = record g { players = redeal cards id g.players; deck = deck }

module _ (cards : ℕ → List Card) (id : ℕ) where
  find_player-redeal : (ps : List Player) → find_player id (redeal cards id ps) ≡ find_player id ps
  unfolding find_player
  find_player-redeal [] = refl
  find_player-redeal (p ∷ ps) = elim (Bool-cases (p.id == id)) [
    | inl e ↦ rw (e, e) refl
    | inr e ↦ rw (e, e) (find_player-redeal ps)
  ]

  big_blind_seat-redeal :
      (i : ℕ) (ps : List Player) → big_blind_seat i (redeal cards id ps) ≡ big_blind_seat i ps
  unfolding big_blind_seat
  big_blind_seat-redeal i [] = refl
  big_blind_seat-redeal i (p ∷ ps) = elim (Bool-cases (p.id == id)) [
    | inl e ↦ rw (e, big_blind_seat-redeal (suc i) ps) refl
    | inr e ↦ rw (e, big_blind_seat-redeal (suc i) ps) refl
  ]

  players_info-redeal :
      (ps : List Player) → players_info id (redeal cards id ps) ≡ players_info id ps
  unfolding players_info
  players_info-redeal [] = refl
  players_info-redeal (p ∷ ps) = elim (Bool-cases (p.id == id)) [
    | inl e ↦ rw (e, e) (players_info-redeal ps)
    | inr e ↦ rw (e, e, players_info-redeal ps) refl
  ]

  actions-none : (g : Game) → find_player id g.players ≡ none → get_available_actions id g ≡ []
  unfolding get_available_actions
  actions-none g e = rw (e, get_available_actions) refl

  actions-some :
      (g : Game) (p : Player)
      → find_player id g.players ≡ some p
      → get_available_actions id g ≡ (if is_active p.status then offers_to id g p else [])
  unfolding get_available_actions
  actions-some g p e = rw (e, get_available_actions) refl

  module _ (deck : List Card) (g : Game) where
    offers_to-redeal :
        (p : Player) → offers_to id (other_cards cards deck id g) p ≡ offers_to id g p
    unfolding offers_to is_big_blind_option
    offers_to-redeal p = rw (big_blind_seat-redeal 0 g.players) refl

    actions-redeal :
        get_available_actions id (other_cards cards deck id g) ≡ get_available_actions id g
    actions-redeal = elim (Option-cases (find_player id g.players)) [
      | inl e ↦
          actions-none (other_cards cards deck id g) (find_player-redeal g.players ∙ e)
          ∙ sym (actions-none g e)
      | inr (p, e) ↦
          actions-some (other_cards cards deck id g) p (find_player-redeal g.players ∙ e)
          ∙ ap (λ os. if is_active p.status then os else []) (offers_to-redeal p)
          ∙ sym (actions-some g p e)
    ]

    viewer-redeal : viewer id (redeal cards id g.players) ≡ viewer id g.players
    unfolding viewer
    viewer-redeal = rw (find_player-redeal g.players) refl

    -- What a player is told does not depend on the deck or on the other players' cards: with any
    -- other cards there the call has the same outcome.
    pub get_llm_game_state-hidden :
        get_llm_game_state id (other_cards cards deck id g) ≡ get_llm_game_state id g
    unfolding get_llm_game_state
    get_llm_game_state-hidden =
        rw (viewer-redeal, players_info-redeal g.players, actions-redeal) refl
