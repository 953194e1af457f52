-- ===== src/History/Figures.antt =====
-- The figures of `get_player_action_stats`: poker/game_history.py.
use adk_poker.Base.{
  ℕ, length-map, ◌≤◌, ◌≡◌, refl, ◌∙◌, List, [], ◌∷◌, map, keep_if, arith, ltb, ◌==◌, if◌then◌else◌,
  length, sum_of,
}
use adk_poker.Evaluator.Shape.{length-distinct}
use adk_poker.History.{
  ActionType, small_blind, big_blind, fold, check, call, raise_to, all_in, ActionRow, ShowdownRow,
  HistoryDb,
}
use adk_poker.History.Reads.{
  same_action, all_actions, by_player, count_of, group_counts, Stats, get_player_action_stats,
}

abbrev pub counts_total : List (ActionType × ℕ) → ℕ
counts_total = sum_of (λ (c : ActionType × ℕ). c.1)

-- The counts of all types, the zeros included.
abbrev all_counts : List ActionType → List ActionRow → ℕ
all_counts types rows = sum_of (λ t. count_of t rows) types

group_counts-total :
    (types : List ActionType) (rows : List ActionRow)
    → counts_total (group_counts types rows) ≡ all_counts types rows
unfolding group_counts
group_counts-total [] rows = refl
group_counts-total (t ∷ types) rows = ground (arith, group_counts-total types rows)

one_type : (a : ActionType) → sum_of (λ t. if same_action a t then 1 else 0) all_actions ≡ 1
one_type small_blind = refl
one_type big_blind = refl
one_type fold = refl
one_type check = refl
one_type call = refl
one_type raise_to = refl
one_type all_in = refl

all_counts-length : (rows : List ActionRow) → all_counts all_actions rows ≡ length rows
all_counts-length [] = refl
all_counts-length (row ∷ rows) = omega (arith, one_type row.action_type, all_counts-length rows)

wins_bound :
    (shown : List ShowdownRow)
    → (sum_of (λ (row : ShowdownRow). if ltb 0 row.winnings then 1 else 0) shown ≤ length shown)
      × (sum_of (λ (row : ShowdownRow). if ltb 0 row.winnings then 1 else 0) shown
          ≤ sum_of (λ (row : ShowdownRow). row.winnings) shown)
wins_bound [] = (omega arith, omega arith)
wins_bound (row ∷ shown) = let (a, b) = wins_bound shown in (ground (arith, a), ground (arith, b))

-- Figures that fit together.
abbrev pub Consistent : HistoryDb → Stats → Type 0
Consistent db s =
    (counts_total s.action_counts ≡ length (by_player s.player_id db.actions))
    × (s.hands_played ≤ counts_total s.action_counts)
    × (s.showdown_wins ≤ s.showdowns)
    × (s.showdown_wins ≤ s.total_winnings)

-- The figures of a player fit together: the counts of the kinds of actions add up to the player's
-- rows in the table, the hands played are no more than these, and the showdowns won are neither
-- more than the showdowns nor more than the chips won.
pub get_player_action_stats-Consistent :
    (id : ℕ) (db : HistoryDb) → Consistent db (get_player_action_stats id db)
unfolding get_player_action_stats
get_player_action_stats-Consistent id db =
    let rows = by_player id db.actions in
    let whole : counts_total (group_counts all_actions rows) ≡ length rows =
      group_counts-total all_actions rows ∙ all_counts-length rows in
    let hands = map (λ (row : ActionRow). row.hand_id) rows in
    let size : length hands ≡ length rows = length-map (λ (row : ActionRow). row.hand_id) rows in
    let (some_won, sum) =
      wins_bound (keep_if (λ (row : ShowdownRow). row.player_id == id) db.showdown_results) in
    (whole, omega (arith, whole, size, length-distinct hands), some_won, sum)
