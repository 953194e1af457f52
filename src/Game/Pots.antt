-- ===== src/Game/Pots.antt =====
-- The pot in layers, and the winners of a layer: `build_pot_layers` and `determine_winner_ids`, two
-- functions inside `PokerGame.conduct_showdown`.
use adk_poker.Base.{
  ℕ, ◌-◌, ◌*◌, Bool, true, false, ◌&&◌, ◌||◌, List, [], ◌∷◌, ◌++◌, leb, ltb, ◌==◌, if◌then◌else◌,
  length, Option, none, some, keep_if,
}
use adk_poker.Base.Dict.{Dict, lookup, insert, values}
use adk_poker.Ranking.{HandResult, rank_value, same_ranks}
use adk_poker.Evaluator.{distinct}
use adk_poker.Player.{Player}

-- `sorted(xs)`
unfoldable pub insert_asc : ℕ → List ℕ → List ℕ
insert_asc x [] = x ∷ []
insert_asc x (y ∷ ys) = let rest = insert_asc x ys in if leb x y then x ∷ y ∷ ys else y ∷ rest

unfoldable pub sort_asc : List ℕ → List ℕ
sort_asc [] = []
sort_asc (x ∷ xs) = insert_asc x (sort_asc xs)

-- `{p.id: p.total_bet_this_hand for p in self.players}`
unfoldable pub bets_from : Dict ℕ → List Player → Dict ℕ
bets_from d [] = d
bets_from d (p ∷ ps) = bets_from (insert p.id p.total_bet_this_hand d) ps

-- `contributions`, without those of 0.
unfoldable pub contributions : List Player → Dict ℕ
contributions ps = keep_if (λ (e : ℕ × ℕ). ltb 0 e.1) (bets_from [] ps)

pub record Layer : Type 0 where
  pub amount : ℕ
  pub contributors : List ℕ

-- `[pid for pid, amt in contrib_map.items() if amt >= level]`
abbrev pub contributors_at : ℕ → Dict ℕ → List ℕ
contributors_at level [] = []
contributors_at level ((pid, amt) ∷ d) =
    let rest = contributors_at level d in if leb level amt then pid ∷ rest else rest

-- The loop of `build_pot_layers` over the levels.
unfoldable pub layers_from : ℕ → List ℕ → Dict ℕ → List Layer
layers_from prev [] d = []
layers_from prev (level ∷ levels) d =
    let rest = layers_from level levels d in
    if leb level prev
    then rest
    else record {
      amount = (level - prev) * length (contributors_at level d);
      contributors = contributors_at level d;
    }
      ∷ rest

-- `build_pot_layers`
unfoldable pub build_pot_layers : Dict ℕ → List Layer
build_pot_layers d = layers_from 0 (sort_asc (distinct (values d))) d

-- `>` between two lists of kickers: Python compares lists as a dictionary does words.
unfoldable pub kickers_gt : List ℕ → List ℕ → Bool
kickers_gt [] _ = false
kickers_gt (k ∷ ks) [] = true
kickers_gt (k ∷ ks) (l ∷ ls) = let rest = kickers_gt ks ls in if k == l then rest else ltb l k

abbrev pub stronger : HandResult → HandResult → Bool
stronger a b =
    ltb (rank_value b.rank) (rank_value a.rank)
    || (rank_value a.rank == rank_value b.rank && kickers_gt a.kickers b.kickers)

abbrev pub ties : HandResult → HandResult → Bool
ties a b = rank_value a.rank == rank_value b.rank && same_ranks a.kickers b.kickers

abbrev pub Hands : Type 0
Hands = Dict (Option HandResult)

-- `hands_by_id.get(pid)`, where a missing key and a missing hand are both `None`.
abbrev pub hand_of : ℕ → Hands → Option HandResult
hand_of pid hands = elim (lookup pid hands) [ none ↦ none | some hand ↦ hand ]

-- A candidate with a hand against the winners so far.
unfoldable pub challenge : ℕ → HandResult → List ℕ × Option HandResult → List ℕ × Option HandResult
challenge pid hand (winners, none) = (pid ∷ [], some hand)
challenge pid hand (winners, some best) =
    if stronger hand best
    then (pid ∷ [], some hand)
    else if ties hand best
    then (winners ++ pid ∷ [], some best)
    else (winners, some best)

-- The loop of `determine_winner_ids`.
unfoldable pub winners_from :
    Hands → List ℕ → List ℕ × Option HandResult → List ℕ × Option HandResult
winners_from hands [] so_far = so_far
winners_from hands (pid ∷ ids) so_far =
    winners_from hands ids
      (elim (hand_of pid hands) [ none ↦ so_far | some hand ↦ challenge pid hand so_far ])

-- `determine_winner_ids`
unfoldable pub determine_winner_ids : Hands → List ℕ → List ℕ × Option HandResult
determine_winner_ids hands ids = winners_from hands ids ([], none)
