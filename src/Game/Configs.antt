-- ===== src/Game/Configs.antt =====
-- Configurations of players, known and unknown: `setup_configurable_game_with_models` of
-- poker/game.py.
use adk_poker.Base.{
  ℕ, suc, ◌≡◌, ap, refl, leb, Bool, true, false, ◌||◌, Bool-cases, inl, inr, ◌⊎◌, every, codes,
  same_text, List, [], ◌∷◌, ◌++◌, arith, ltb, if◌then◌else◌, length,
}
use adk_poker.Result.{Result, ok, raise, value_error, Result-cases, ◌>>=◌}
use adk_poker.Player.{new_player}
use adk_poker.Game.State.{Game}
use adk_poker.Game.Setup.{
  Seat, Config, get_or, add_seats, setup, seat_of_config, setup_configurable_game_with_models,
}
use adk_poker.Game.Tables.{Known, add_player-full, add_player-room}

-- The types of players that there are.
abbrev pub is_known : Config → Bool
is_known config =
    let t = get_or config.type [] in
    same_text t (codes "human")
    || same_text t (codes "random")
    || same_text t (codes "llm")
    || same_text t (codes "llm_api")

known_seat :
    (i : ℕ) (config : Config)
    → is_known config ≡ true
    → (s : Seat) × (seat_of_config i config ≡ ok s)
unfolding seat_of_config
known_seat i config h = elim (Result-cases (seat_of_config i config)) [
  | inl s ↦ s
  | inr (e, r) ↦ absurd (ground (arith, r, h))
]

unknown_seat :
    (i : ℕ) (config : Config)
    → is_known config ≡ false
    → seat_of_config i config ≡ raise value_error
unfolding seat_of_config
unknown_seat i config h = ground arith

pub every-Known :
    (i : ℕ) (configs : List Config) → every is_known configs ≡ true → Known seat_of_config i configs
every-Known i [] h = tt
every-Known i (c ∷ configs) h =
    (known_seat i c (ground arith), every-Known (suc i) configs (ground arith))

add_seats_unknown :
    (i : ℕ) (configs : List Config) (g : Game)
    → every is_known configs ≡ false
    → add_seats seat_of_config i configs g ≡ raise value_error
unfolding add_seats
add_seats_unknown i [] g h = cc
add_seats_unknown i (c ∷ configs) g h = elim (Bool-cases (is_known c)) [
  | inr e ↦ rw (unknown_seat i c e)
  | inl e ↦
      let (seat, made) = known_seat i c e in
      let p = new_player i g.initial_chips in
      elim (Bool-cases (leb 10 (length g.players))) [
        | inl full ↦ rw (made, add_player-full p g full) refl
        | inr room ↦
            rw (made, add_player-room p g room)
              (ap (λ m. m >>= λ (k, seats). ok (k, seat ∷ seats))
                (add_seats_unknown (suc i) configs (record g { players = g.players ++ p ∷ [] })
                  (ground arith)))
      ]
]

-- Refused configurations.
pub setup_configurable_game_with_models_refused :
    (draw : ℕ → ℕ) (configs : List Config) (g : Game)
    → (ltb (length configs) 2 || ltb 10 (length configs) ≡ true) ⊎ (every is_known configs ≡ false)
    → setup_configurable_game_with_models draw configs g ≡ raise value_error
unfolding setup_configurable_game_with_models setup
setup_configurable_game_with_models_refused draw configs g (inl e) = rw e
setup_configurable_game_with_models_refused draw configs g (inr e) =
    rw (add_seats_unknown 0 configs (record g { players = [] }) e)
      (either (ltb (length configs) 2 || ltb 10 (length configs)))
  where
    either :
        {A : Type 0} (b : Bool)
        → Path (Result A) (if b then raise value_error else raise value_error) (raise value_error)
    either true = refl
    either false = refl
