-- ===== src/Game/Hand/Button.antt =====
-- `PokerGame._move_dealer_button`, and the state between the steps of `start_new_hand`.
use native.Mathlib.Nat.{mod-lt}
use adk_poker.Base.{
  ℕ, suc, ◌+◌, ◌%◌, ◌<◌, ◌≡◌, refl, ◌∙◌, ap, Bool, true, List, [], ◌∷◌, length, contains, All,
  sum_of, arith, ◌==◌, Bool-cases, inl, inr,
}
use adk_poker.Result.{ok, Yields, ◌>>=◌}
use adk_poker.Cards.{Card}
use adk_poker.Cards.Deck.{copies}
use adk_poker.Player.{Player}
use adk_poker.Game.Table.{held_copies}
use adk_poker.Game.State.{Game, seats_from, seats, not_busted}
use adk_poker.Game.Money.{Conserves}
use adk_poker.Game.Hand.{flag_dealer, next_dealer, move_dealer_button}
use adk_poker.Game.Hand.Seats.{at-Yields, index_from-Yields, All-contains_self}
use adk_poker.Game.Showdown.Shown.{ids_of}

-- A player in play holds `n` cards.
abbrev pub Holds : ℕ → Player → Type 0
Holds n p = not_busted p ≡ true → length p.hole_cards ≡ n

-- Between two states of an opening: chips, hole cards, ids and the seats in play are the same, and every player
-- in play holds `n` cards.
pub record Opening (n : ℕ) (c h : Game) : Type 0 where
  pub money : Conserves c h
  pub ids : ids_of h.players ≡ ids_of c.players
  pub places : seats not_busted h ≡ seats not_busted c
  pub held : All (Holds n) h.players
  pub cards : (x : Card) → held_copies x h.players ≡ held_copies x c.players
  pub deck : h.deck ≡ c.deck
  pub board : h.community_cards ≡ c.community_cards
  pub phase : h.current_phase ≡ c.current_phase

pub Opening-same :
    {n : ℕ} {c g h : Game}
    → h.players ≡ g.players
    → h.pot ≡ g.pot
    → h.deck ≡ g.deck
    → h.community_cards ≡ g.community_cards
    → h.current_phase ≡ g.current_phase
    → Opening n c g
    → Opening n c h
Opening-same e k d b f o = record {
  money = record { chips = rw (e, k) o.money.chips; staked = rw (e, k) o.money.staked };
  ids = rw e o.ids;
  places = rw e o.places;
  held = rw e o.held;
  cards = rw e o.cards;
  deck = d ∙ o.deck;
  board = b ∙ o.board;
  phase = f ∙ o.phase;
}

-- The next dealer is one of the seats in play.
next_dealer-Yields :
    (dealer : ℕ) (active : List ℕ)
    → 0 < length active
    → Yields (λ d. contains d active ≡ true) (next_dealer dealer active)
unfolding next_dealer
next_dealer-Yields dealer active h = elim (Bool-cases (contains dealer active)) [
  | inl e ↦
      let (j, run, (low, high)) = index_from-Yields 0 dealer active e in
      let (d, run', (_, k)) =
        at-Yields _ active ((j + 1) % length active) (mod-lt (j + 1) h)
          (All-contains_self active) in
      (d, rw (e, run) run', k)
  | inr e ↦
      let (d, run, (_, k)) = at-Yields _ active 0 h (All-contains_self active) in (d, rw e run, k)
]

-- The flag of the dealer leaves the rest of a player.
flag_dealer-sum :
    (f : Player → ℕ)
    → ((p : Player) (b : Bool) → f (record p { is_dealer = b }) ≡ f p)
    → (dealer i : ℕ) (ps : List Player) → sum_of f (flag_dealer dealer i ps) ≡ sum_of f ps
unfolding flag_dealer
flag_dealer-sum f same dealer i [] = refl
flag_dealer-sum f same dealer i (p ∷ ps) =
    omega (arith, same p (i == dealer), flag_dealer-sum f same dealer (suc i) ps)

flag_dealer-ids : (dealer i : ℕ) (ps : List Player) → ids_of (flag_dealer dealer i ps) ≡ ids_of ps
unfolding flag_dealer
flag_dealer-ids dealer i [] = refl
flag_dealer-ids dealer i (p ∷ ps) = ap (◌∷◌ p.id) (flag_dealer-ids dealer (suc i) ps)

flag_dealer-seats :
    (j dealer i : ℕ) (ps : List Player)
    → seats_from not_busted j (flag_dealer dealer i ps) ≡ seats_from not_busted j ps
unfolding flag_dealer seats_from
flag_dealer-seats j dealer i [] = refl
flag_dealer-seats j dealer i (p ∷ ps) = rw (flag_dealer-seats (suc j) dealer (suc i) ps) refl

flag_dealer-held :
    (n dealer i : ℕ) (ps : List Player) → All (Holds n) ps → All (Holds n) (flag_dealer dealer i ps)
unfolding flag_dealer
flag_dealer-held n dealer i [] a = tt
flag_dealer-held n dealer i (p ∷ ps) a = (a.0, flag_dealer-held n dealer (suc i) ps a.1)

-- The button stands at a seat in play.
abbrev pub Buttoned : ℕ → Game → Game → Type 0
Buttoned n c h = Opening n c h × (contains h.dealer_button (seats not_busted c) ≡ true)

pub move_dealer_button-Yields :
    (g : Game)
    → All (Holds 0) g.players
    → 0 < length (seats not_busted g)
    → Yields (Buttoned 0 g) (move_dealer_button g)
unfolding move_dealer_button
move_dealer_button-Yields g held many = go (seats not_busted g) refl many
  where
    go :
        (active : List ℕ)
        → seats not_busted g ≡ active
        → 0 < length active
        → Yields (Buttoned 0 g) (elim active [
          | [] ↦ ok g
          | first ∷ others ↦ next_dealer g.dealer_button (first ∷ others) >>= λ dealer.
              ok (record g { dealer_button = dealer; players = flag_dealer dealer 0 g.players })
        ])
    go [] e h = absurd (omega arith)
    go (first ∷ others) e h =
        let (d, run, k) = next_dealer-Yields g.dealer_button (first ∷ others) h in
        let s = flag_dealer-sum (λ p. p.chips) (λ p b. refl) d 0 g.players in
        let t = flag_dealer-sum (λ p. p.total_bet_this_hand) (λ p b. refl) d 0 g.players in
        (
          record g { dealer_button = d; players = flag_dealer d 0 g.players },
          rw run refl,
          (
            record {
              money = record { chips = omega (arith, s); staked = omega (arith, t) };
              ids = flag_dealer-ids d 0 g.players;
              places = flag_dealer-seats 0 d 0 g.players;
              held = flag_dealer-held 0 d 0 g.players held;
              cards = λ x. flag_dealer-sum (λ p. copies x p.hole_cards) (λ p b. refl) d 0 g.players;
              deck = refl;
              board = refl;
              phase = refl;
            },
            rw e k,
          ),
        )
