-- ===== src/Game/Showdown/Paid.antt =====
-- `conduct_showdown`: the stacks once the winnings are paid out.
use mathlib.Core.Path.{subst}
use adk_poker.Base.{
  ℕ, ◌+◌, ◌-◌, ◌≡◌, refl, ap, ◌∙◌, inl, inr, Bool, List, [], ◌∷◌, leb, ◌==◌, ==_self, Option, some,
  keep_if, All, arith, Bool-cases,
}
use adk_poker.Base.Dict.{Dict, keys, total}
use adk_poker.Ranking.{HandResult}
use adk_poker.Player.{Player}
use adk_poker.Game.State.{Game, find_player, put_player, stacks}
use adk_poker.Game.Table.{
  sum_of-put_player, find_player-put_self, find_player-put_ne, find_player-id,
}
use adk_poker.Game.Pots.{Hands}
use adk_poker.Game.Showdown.{
  Payout, insert_item, sort_items, pay_out, log_hands, log_showdown, settle,
}

-- The id is a player's.
abbrev pub Known : List Player → ℕ → Type 0
Known ps pid = (p : Player) × (find_player pid ps ≡ some p)

put_player-Known :
    (id pid : ℕ) (q : Player) (ps : List Player)
    → q.id ≡ id
    → Known ps id
    → Known ps pid
    → Known (put_player id q ps) pid
put_player-Known id pid q ps same (p, e) (r, f) = elim (Bool-cases (pid == id)) [
  | inl h ↦
      let k : id ≡ pid = ground arith in
      (
        q,
        subst (λ x. find_player x (put_player id q ps) ≡ some q) k
            (find_player-put_self id q ps p e same),
      )
  | inr h ↦ (r, find_player-put_ne id pid q ps (ground arith) same ∙ f)
]

pub All-map {κ μ} :
    (P : ℕ → Type κ) (Q : ℕ → Type μ) (xs : List ℕ) → ((x : ℕ) → P x → Q x) → All P xs → All Q xs
All-map P Q [] f h = tt
All-map P Q (x ∷ xs) f h = (f x h.0, All-map P Q xs f h.1)

pay_out-stacks :
    (hands : Hands) (d : Dict ℕ) (ps : List Player)
    → All (Known ps) (keys d)
    → stacks (pay_out hands d ps).0 ≡ stacks ps + total d
unfolding pay_out
pay_out-stacks hands [] ps h = omega arith
pay_out-stacks hands ((pid, amount) ∷ d) ps ((p, e), h) =
    let q = record p { chips = p.chips + amount } in
    let same = find_player-id pid ps p e in
    let rest =
      pay_out-stacks hands d (put_player pid q ps)
        (All-map (Known ps) _ (keys d) (λ x k. put_player-Known pid x q ps same (p, e) k) h) in
    rw (e, pay_out) (omega (arith, rest, sum_of-put_player (λ r. r.chips) pid q ps p e))

insert_item-total : (e : ℕ × ℕ) (d : Dict ℕ) → total (insert_item e d) ≡ e.1 + total d
unfolding insert_item
insert_item-total e [] = refl
insert_item-total e (f ∷ d) = ground (arith, insert_item-total e d)

sort_items-total : (d : Dict ℕ) → total (sort_items d) ≡ total d
unfolding sort_items
sort_items-total [] = refl
sort_items-total (e ∷ d) = omega (arith, insert_item-total e (sort_items d), sort_items-total d)

insert_item-keys {κ} :
    (P : ℕ → Type κ) (e : ℕ × ℕ) (d : Dict ℕ)
    → P e.0
    → All P (keys d)
    → All P (keys (insert_item e d))
unfolding insert_item
insert_item-keys P e [] h a = (h, tt)
insert_item-keys P e (f ∷ d) h a = elim (Bool-cases (leb e.0 f.0)) [
  | inl t ↦ rw t (h, a)
  | inr t ↦ rw t (a.0, insert_item-keys P e d h a.1)
]

sort_items-keys {κ} : (P : ℕ → Type κ) (d : Dict ℕ) → All P (keys d) → All P (keys (sort_items d))
unfolding sort_items
sort_items-keys P [] a = tt
sort_items-keys P (e ∷ d) a = insert_item-keys P e (sort_items d) a.0 (sort_items-keys P d a.1)

Known-cons : (p : Player) (ps : List Player) (pid : ℕ) → Known ps pid → Known (p ∷ ps) pid
unfolding find_player
Known-cons p ps pid (q, e) = elim (Bool-cases (p.id == pid)) [
  | inl h ↦ (p, rw h)
  | inr h ↦ (q, rw h e)
]

Known-self : (p : Player) (ps : List Player) → Known (p ∷ ps) p.id
unfolding find_player
Known-self p ps = (p, rw (==_self p.id))

All-weaken {κ μ} :
    (P : Player → Type κ) (Q : Player → Type μ) (ps : List Player)
    → ((p : Player) → P p → Q p)
    → All P ps
    → All Q ps
All-weaken P Q [] f h = tt
All-weaken P Q (p ∷ ps) f h = (f p h.0, All-weaken P Q ps f h.1)

pub All-Known : (ps : List Player) → All (λ p. Known ps p.id) ps
All-Known [] = tt
All-Known (p ∷ ps) =
    (Known-self p ps, All-weaken _ _ ps (λ q k. Known-cons p ps q.id k) (All-Known ps))

pub keep_if-weaken {κ} :
    (P : Player → Type κ) (test : Player → Bool) (ps : List Player)
    → All P ps
    → All P (keep_if test ps)
keep_if-weaken P test [] h = tt
keep_if-weaken P test (p ∷ ps) h = elim (Bool-cases (test p)) [
  | inl e ↦ rw e (h.0, keep_if-weaken P test ps h.1)
  | inr e ↦ rw e (keep_if-weaken P test ps h.1)
]

pub log_hands-same :
    (shown : List (Player × Option HandResult)) (g : Game)
    → ((log_hands shown g).players ≡ g.players) × ((log_hands shown g).pot ≡ g.pot)
unfolding log_hands
log_hands-same [] g = (refl, refl)
log_hands-same ((p, hand) ∷ shown) g = log_hands-same shown _

log_showdown-same :
    (winnings : Dict ℕ) (shown : List (Player × Option HandResult)) (g : Game)
    → ((log_showdown winnings shown g).players ≡ g.players)
      × ((log_showdown winnings shown g).pot ≡ g.pot)
unfolding log_showdown
log_showdown-same winnings shown g = ground arith

pub settle-pays :
    (hands : Hands) (shown : List (Player × Option HandResult)) (pay : Payout) (g : Game)
    → All (Known g.players) (keys pay.winnings)
    → (stacks (settle hands shown pay g).0.players ≡ stacks g.players + total pay.winnings)
      × ((settle hands shown pay g).0.pot ≡ g.pot - pay.awarded)
unfolding settle
settle-pays hands shown pay g known =
    let (p, t) = log_showdown-same pay.winnings shown _ in
    (
      ap stacks p
          ∙ pay_out-stacks hands (sort_items pay.winnings) g.players
              (sort_items-keys (Known g.players) pay.winnings known)
          ∙ ap (λ n. stacks g.players + n) (sort_items-total pay.winnings),
      t,
    )
