-- ===== src/Lib.antt =====
-- A verification library of the poker game in poker/: Texas hold'em without limit, for up to ten
-- players, as the class PokerGame runs it, and of the tools that agents have beside it.
--
-- The program's parts and their files. A definition stands for the function or the method named in
-- the comment above it; methods of an object take its state and return the new one, and an
-- exception is `raise` in the type `Result` (Result.antt).
--   Base, Result  numbers, lists, dictionaries and results that the other files share
--   Cards         poker/game_models.py: Suit, Card, Deck. A deck is the list of its cards, and
--                 `random.shuffle` is a parameter. Cards.Deck has the full deck, Cards.Text
--                 prints.
--   Player        poker/player_models.py: PlayerStatus, and Player without its name and decisions
--   Ranking       poker/evaluator.py: HandRank, HandResult, compare_hands
--   Evaluator     poker/evaluator.py: the rest of HandEvaluator. Order is about the order of
--                 hands, Shape about five cards, Choices about combinations, Best and Total about
--                 evaluate_hand, Wheel about straights.
--   History       poker/game_history.py: the tables of GameHistoryDB and the methods that write
--                 them; Reads has the reading methods and the functions for agents, Book the
--                 history as a book of hands, Rows, Hands and Refined compare the two, Figures
--                 is about statistics
--   Game.State    poker/game.py: the fields of PokerGame, get_player, add_player
--   Game.Round    whose turn it is, and when a betting round is over: _advance_to_next_player,
--                 _check_betting_round_complete, _start_new_betting_round and their helpers
--   Game.Action   process_player_action; Turn, Frame, Table and Money hold its lemmas
--   Game.Refusal  when an action is accepted, and when refused
--   Game.Offer    _get_available_actions
--   Game.Lowered  raises by a negative amount
--   Game.Rotation whose turn comes after an action, and when a round ends
--   Game.Hand     start_new_hand, _move_dealer_button, _post_blinds, _deal_hole_cards,
--                 _set_first_actor_preflop; Seats, Button, Blinds, Dealing and Actor hold the
--                 lemmas of its parts, Start the whole
--   Game.Board    advance_to_next_phase, _deal_flop, _deal_turn, _deal_river; Streets counts the
--                 cards, NewRound is about the round that follows, Advance has the phases
--   Game.Seated   ids and hole cards through a turn
--   Game.Play     a hand as a sequence of calls, from start_new_hand to conduct_showdown
--   Game.Apart    where the cards are in the course of a hand
--   Game.Setup    the setup functions; Tables and Configs hold lemmas on new tables, Evening has
--                 the hands played at them
--   Game.Pots     the side pots and who wins one, the two functions inside conduct_showdown
--   Game.Showdown conduct_showdown; Layers is about the side pots, Winners about who wins one,
--                 Agreement about the order of hands there, Shares about the shares, Shown about
--                 the hands that are shown, Paid about the stacks, Payment and Emptied about the
--                 whole, Default about a hand with one player left
--   View          poker/game_models.py, GameState and PlayerInfo (Data), and get_llm_game_state of
--                 poker/game.py (State); RoundTrip is about the dicts, Hidden about hidden cards
--   Decisions     poker/player_models.py: RandomPlayer (Random) and _parse_llm_response (Answer);
--                 Values is about its amounts, Accepted and Bounded about what they decide
--   Tutorial      tutorial_agents/agent_with_tool/hand_evaluator_tool.py: Parse reads cards,
--                 Simple evaluates, Tool is the tool. Royal and Agrees compare it with Evaluator,
--                 RoundTrip is about printed cards, Branches, Printed and Reports about the
--                 report.
--   Preflop       agents/team1_agent/preflop/tools/: Classify has the classes of hands, Suggest
--                 the advice; Letters and Printed are about printed cards, Amounts about the
--                 advice
--   Flop          agents/team1_agent/flop_strategy_agent/tools/: Rank and Evaluate are
--                 hand_evaluator.py, Draws is draw_analyzer.py. Total, Highest and Printed are
--                 about what is reported; Suits, Runs, Counts, Category, Ranked, Agrees and Hands
--                 compare it with Evaluator, Outs is about the outs of straights.
--
-- How the parts interact: PokerGame owns the deck, the players and the history. A hand is
-- start_new_hand, then process_player_action for each turn, advance_to_next_phase when
-- betting_round_complete is set, and conduct_showdown at the end, which calls the evaluator. An
-- automatic player is asked with get_llm_game_state, and its decision goes to
-- process_player_action. Agents read the history through get_game_history.
--
-- Numbers: chips, bets and ranks are natural numbers; they start so, and Player.bet takes the
-- minimum of the amount and the stack. Amounts that a caller passes are integers of either sign,
-- since the code does not test their sign. Python's integers have no bound, so no width is
-- modelled. A score that the code rounds to some decimals is a whole number of units of the last
-- one. Every loop of the source runs over a list or a range, and is structural recursion; no fuel
-- is needed.
--
-- Players are found by their ids, as get_player does. The state keeps one list of players, and a
-- write to a player object is a write to that list at its id; `current_player_index` is compared
-- with an id by process_player_action and used as a seat elsewhere, which the model keeps.
--
-- Not modelled: the text of log lines (a line of action_history is its format string with its
-- arguments), time stamps, sqlite, the user interfaces, the agent processes, the language model
-- players' calls and their search for JSON in an answer (what `int` reads in a text is a
-- parameter), the float score and the bet sizes of team 1's flop tools, and the JSON files. Texts
-- are lists of code points, and case mapping is that of the ASCII letters: the code compares the
-- result with ASCII texts only.
pub mod Base
pub mod Result
pub mod Cards
pub mod Player
pub mod Ranking
pub mod Evaluator
pub mod History
pub mod Game
pub mod Tutorial
pub mod Preflop
pub mod Flop
pub mod Decisions
pub mod View
