-- ===== src/View/RoundTrip.antt =====
-- `GameState.to_dict` and `GameState.from_dict` of poker/game_models.py, one after the other.
use adk_poker.Base.{◌≡◌, refl, List, [], ◌∷◌, map}
use adk_poker.Result.{ok, traverse}
use adk_poker.View.Data.{PlayerInfo, GameState, info_dict, info_from, to_dict, from_dict}

infos-read : (ps : List PlayerInfo) → traverse info_from (map info_dict ps) ≡ ok ps
unfolding info_from
infos-read [] = refl
infos-read (p ∷ ps) = rw (infos-read ps)

-- from_dict gives back the state from its to_dict.
pub from_dict-to_dict : (s : GameState) → from_dict (to_dict s) ≡ ok s
unfolding from_dict to_dict
from_dict-to_dict s = rw (infos-read s.players)
