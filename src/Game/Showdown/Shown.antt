-- ===== src/Game/Showdown/Shown.antt =====
-- The hands that are shown in `conduct_showdown`.
use mathlib.Core.Path.{subst}
use mathlib.Core.Bool.{false≢true}
use adk_poker.Base.{
  ℕ, ◌<◌, ◌≡◌, refl, ap, ◌⊎◌, inl, inr, true, List, [], ◌∷◌, ◌++◌, map, ◌==◌, if◌then◌else◌, length,
  Option, some, contains, All, arith, Bool-cases,
}
use adk_poker.Base.Dict.{insert}
use adk_poker.Result.{ok}
use adk_poker.Cards.{Card}
use adk_poker.Ranking.{HandResult}
use adk_poker.Evaluator.Total.{evaluate_hand_total}
use adk_poker.Player.{Player}
use adk_poker.Game.Pots.{Hands, hand_of}
use adk_poker.Game.Showdown.{show_hands, hands_from}
use adk_poker.Game.Showdown.Winners.{HasHand}

-- A hand can be read for each of the players.
abbrev pub HaveCards : List Card → List Player → Type 0
HaveCards community = All (λ p. 0 < length (p.hole_cards ++ community))

abbrev pub Shown : Player × Option HandResult → Type 0
Shown s = (r : HandResult) × (s.1 ≡ some r)

pub show_hands_total :
    (community : List Card) (ps : List Player)
    → HaveCards community ps
    → (shown : List (Player × Option HandResult)) × (show_hands community ps ≡ ok shown)
      × All Shown shown
      × (map (λ (s : Player × Option HandResult). s.0) shown ≡ ps)
unfolding show_hands
show_hands_total community [] h = ([], refl, tt, refl)
show_hands_total community (p ∷ ps) h =
    let (r, e) = evaluate_hand_total p.hole_cards community h.0 in
    let (shown, run, all, same) = show_hands_total community ps h.1 in
    ((p, some r) ∷ shown, rw e (rw run), ((r, refl), all), ap (◌∷◌ p) same)

-- A read after a write.
hand_of-insert :
    (j k : ℕ) (hand : Option HandResult) (d : Hands)
    → hand_of j (insert k hand d) ≡ (if k == j then hand else hand_of j d)
hand_of-insert j k hand [] = ground arith
hand_of-insert j k hand ((i, v) ∷ d) = ground (arith, hand_of-insert j k hand d)

HasHand-insert_self : (pid : ℕ) (r : HandResult) (d : Hands) → HasHand (insert pid (some r) d) pid
HasHand-insert_self pid r d = (r, ground (arith, hand_of-insert pid pid (some r) d))

HasHand-insert_keep :
    (pid k : ℕ) (r : HandResult) (d : Hands) → HasHand d pid → HasHand (insert k (some r) d) pid
HasHand-insert_keep pid k r d (x, e) = elim (Bool-cases (k == pid)) [
  | inl h ↦ (r, ground (arith, hand_of-insert pid k (some r) d, h))
  | inr h ↦ (x, ground (arith, hand_of-insert pid k (some r) d, h))
]

HasHand-hands_from :
    (pid : ℕ) (d : Hands) (shown : List (Player × Option HandResult))
    → All Shown shown
    → HasHand d pid
    → HasHand (hands_from d shown) pid
unfolding hands_from
HasHand-hands_from pid d [] a h = h
HasHand-hands_from pid d ((p, hand) ∷ shown) ((r, e), a) h =
    HasHand-hands_from pid (insert p.id hand d) shown a (rw e (HasHand-insert_keep pid p.id r d h))

abbrev pub ids_of : List Player → List ℕ
ids_of = map (λ (p : Player). p.id)

pub hands_from-AllShown :
    (d : Hands) (shown : List (Player × Option HandResult)) (pid : ℕ)
    → All Shown shown
    → contains pid (ids_of (map (λ (s : Player × Option HandResult). s.0) shown)) ≡ true
    → HasHand (hands_from d shown) pid
unfolding hands_from
hands_from-AllShown d [] pid a c = absurd (false≢true c)
hands_from-AllShown d ((p, hand) ∷ shown) pid ((r, e), a) c = elim (Bool-cases (pid == p.id)) [
  | inl h ↦
      let k : p.id ≡ pid = ground arith in
      HasHand-hands_from pid (insert p.id hand d) shown a (rw (e, k) (HasHand-insert_self pid r d))
  | inr h ↦ hands_from-AllShown (insert p.id hand d) shown pid a (ground (arith, c, h))
]

-- Only ids that are shown get a hand.
HasHand-insert_cases :
    (pid k : ℕ) (hand : Option HandResult) (d : Hands)
    → HasHand (insert k hand d) pid
    → (k ≡ pid) ⊎ HasHand d pid
HasHand-insert_cases pid k hand d (x, e) = elim (Bool-cases (k == pid)) [
  | inl h ↦ inl (ground arith)
  | inr h ↦ inr (x, ground (arith, hand_of-insert pid k hand d, h))
]

pub hands_from-cases {κ} :
    (K : ℕ → Type κ) (d : Hands) (shown : List (Player × Option HandResult))
    → All (λ s. K s.0.id) shown
    → ((pid : ℕ) → HasHand d pid → K pid)
    → (pid : ℕ) → HasHand (hands_from d shown) pid
    → K pid
unfolding hands_from
hands_from-cases K d [] a f pid h = f pid h
hands_from-cases K d ((p, hand) ∷ shown) a f pid h =
    hands_from-cases K (insert p.id hand d) shown a.1
      (λ q x. elim (HasHand-insert_cases q p.id hand d x) [ inl e ↦ subst K e a.0 | inr y ↦ f q y ])
      pid h
