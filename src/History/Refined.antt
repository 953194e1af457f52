-- ===== src/History/Refined.antt =====
-- The tables of GameHistoryDB in poker/game_history.py beside the book of hands.
use adk_poker.Base.{
  ℕ, zero, suc, ◌+◌, ◌≤◌, ◌≡◌, refl, sym, ap, ◌∙◌, inl, inr, List, [], ◌∷◌, arith, ◌==◌,
  if◌then◌else◌, length, Bool-cases, none, some, Option,
}
use mathlib.Core.List.{append-nil}
use adk_poker.History.{
  Phase, HandRow, ActionRow, BoardRow, ShowdownRow, HistoryDb, new_db, start_new_hand,
  record_action, record_community_cards, record_showdown, end_hand,
}
use adk_poker.History.Reads.{
  HandHistory, find_hand, actions_of, boards_from, showdowns_of, get_hand_history, hand_ids, max_id,
  get_last_hand_id,
}
use adk_poker.History.Book.{
  Write, new_hand, action, board, shown, ended, write, replay, Book, empty_book, enter, enter_all,
  end_of,
}
use adk_poker.History.Rows.{
  board_at, shown_at, is_row, is_shown, board-recorded, shown-snoc, shown-other, keep_if-append,
}
use adk_poker.History.Hands.{
  counted, counted-snoc, length-counted, max_id-counted, ids-append, length-ids, ids-end_rows,
  find_hand-counted, find_hand-fresh, or_else, find_hand-snoc, find_hand-end_rows,
}

-- The tables say what the book says.
pub record Agrees (db : HistoryDb) (b : Book) : Type 0 where
  pub ids : hand_ids db ≡ counted 1 b.hands
  pub hand : (id : ℕ) → find_hand id db.hands ≡ b.hand id
  pub actions : (id : ℕ) → actions_of id db.actions ≡ b.actions id
  pub board :
      (id : ℕ) (phase : Phase)
      → board_at phase (boards_from [] id db.community_cards) ≡ b.board id phase
  pub shown :
      (id player : ℕ) → shown_at player (showdowns_of id db.showdown_results) ≡ b.shown id player

new_hand-found :
    (db : HistoryDb) (b : Book) (sb bb dealer : ℕ) (players : List ℕ) (id : ℕ)
    → Agrees db b
    → find_hand id (write (new_hand sb bb dealer players) db).hands
      ≡ (enter (new_hand sb bb dealer players) b).hand id
unfolding write enter start_new_hand
new_hand-found db b sb bb dealer players id a =
    let size : length db.hands ≡ b.hands =
      sym (length-ids db.hands) ∙ ap length a.ids ∙ length-counted 1 b.hands in
    find_hand-snoc id _ db.hands
    ∙ rw size (elim (Bool-cases (suc b.hands == id)) [
      | inl e ↦
          let k : suc b.hands ≡ id = ground arith in
          let fresh = find_hand-fresh db.hands 1 b.hands id a.ids (omega (arith, k)) in
          rw (e, fresh, k) refl
      | inr e ↦ rw e (kept (find_hand id db.hands) ∙ a.hand id)
    ])
  where
    kept : (o : Option HandRow) → or_else o none ≡ o
    kept none = refl
    kept (some row) = refl

new_hand-Agrees :
    (db : HistoryDb) (b : Book) (sb bb dealer : ℕ) (players : List ℕ)
    → Agrees db b
    → Agrees (write (new_hand sb bb dealer players) db) (enter (new_hand sb bb dealer players) b)
unfolding write enter start_new_hand
new_hand-Agrees db b sb bb dealer players a =
    let size : length db.hands ≡ b.hands =
      sym (length-ids db.hands) ∙ ap length a.ids ∙ length-counted 1 b.hands in
    let next : suc (length db.hands) ≡ 1 + b.hands = omega (arith, size) in
    record {
      ids = ids-append db.hands _ ∙ (rw (a.ids, next) (counted-snoc 1 b.hands));
      hand = λ id. new_hand-found db b sb bb dealer players id a;
      actions = a.actions;
      board = a.board;
      shown = a.shown;
    }

action-Agrees :
    (db : HistoryDb) (b : Book) (row : ActionRow)
    → Agrees db b
    → Agrees (write (action row) db) (enter (action row) b)
unfolding write enter record_action
action-Agrees db b row a = record {
  ids = a.ids;
  hand = a.hand;
  actions = λ id.
      keep_if-append (λ (r : ActionRow). r.hand_id == id) db.actions (row ∷ [])
      ∙ (elim (Bool-cases (row.hand_id == id)) [
        | inl e ↦ rw (e, a.actions id) refl
        | inr e ↦ rw (e, a.actions id) (append-nil (b.actions id))
      ]);
  board = a.board;
  shown = a.shown;
}

board-Agrees :
    (db : HistoryDb) (b : Book) (row : BoardRow)
    → Agrees db b
    → Agrees (write (board row) db) (enter (board row) b)
unfolding write enter record_community_cards
board-Agrees db b row a = record {
  ids = a.ids;
  hand = a.hand;
  actions = a.actions;
  board = λ id phase.
      board-recorded id phase row db.community_cards
      ∙ ap (λ o. if is_row id phase row then some row.cards else o) (a.board id phase);
  shown = a.shown;
}

shown-Agrees :
    (db : HistoryDb) (b : Book) (row : ShowdownRow)
    → Agrees db b
    → Agrees (write (shown row) db) (enter (shown row) b)
unfolding write enter record_showdown
shown-Agrees db b row a = record {
  ids = a.ids;
  hand = a.hand;
  actions = a.actions;
  board = a.board;
  shown = λ id player. elim (Bool-cases (is_shown id player row)) [
    | inl e ↦ rw e (shown-snoc id player row db.showdown_results e)
    | inr e ↦ rw e (shown-other id player row db.showdown_results e ∙ a.shown id player)
  ];
}

ended-Agrees :
    (db : HistoryDb) (b : Book) (hand_id : ℕ)
    → Agrees db b
    → Agrees (write (ended hand_id) db) (enter (ended hand_id) b)
unfolding write enter end_hand
ended-Agrees db b hand_id a = record {
  ids = ids-end_rows hand_id db.hands ∙ a.ids;
  hand = λ id.
      find_hand-end_rows hand_id id db.hands
      ∙ ap (λ o. if hand_id == id then end_of o else o) (a.hand id);
  actions = a.actions;
  board = a.board;
  shown = a.shown;
}

write-Agrees :
    (w : Write) (db : HistoryDb) (b : Book) → Agrees db b → Agrees (write w db) (enter w b)
write-Agrees (new_hand sb bb dealer players) db b a = new_hand-Agrees db b sb bb dealer players a
write-Agrees (action row) db b a = action-Agrees db b row a
write-Agrees (board row) db b a = board-Agrees db b row a
write-Agrees (shown row) db b a = shown-Agrees db b row a
write-Agrees (ended hand_id) db b a = ended-Agrees db b hand_id a

replay-Agrees :
    (ws : List Write) (db : HistoryDb) (b : Book)
    → Agrees db b
    → Agrees (replay ws db) (enter_all ws b)
unfolding replay enter_all
replay-Agrees [] db b a = a
replay-Agrees (w ∷ ws) db b a = replay-Agrees ws (write w db) (enter w b) (write-Agrees w db b a)

-- The reading methods tell what the book says of a hand.
abbrev pub Told : ℕ → HistoryDb → Book → Type 0
Told id db b =
    (h : HandHistory) × (get_hand_history id db ≡ some h)
    × (some h.hand ≡ b.hand id)
    × (h.hand.hand_id ≡ id)
    × (h.actions ≡ b.actions id)
    × ((phase : Phase) → board_at phase h.community_cards ≡ b.board id phase)
    × ((player : ℕ) → shown_at player h.showdown_results ≡ b.shown id player)

Agrees-Told :
    (id : ℕ) (db : HistoryDb) (b : Book) → Agrees db b → 1 ≤ id → id ≤ b.hands → Told id db b
unfolding get_hand_history
Agrees-Told id db b a h k =
    let (row, e, same) = find_hand-counted db.hands 1 b.hands id a.ids h (omega arith) in
    rw (e, get_hand_history)
      (_, refl, sym e ∙ a.hand id, same, a.actions id, a.board id, a.shown id)

last-Agrees :
    (db : HistoryDb) (b : Book)
    → Agrees db b
    → get_last_hand_id db ≡ (if b.hands == 0 then none else some b.hands)
unfolding get_last_hand_id
last-Agrees db b a = rw a.ids (last b.hands)
  where
    last :
        (n : ℕ)
        → (if max_id (counted 1 n) == 0 then none else some (max_id (counted 1 n)))
          ≡ (if n == 0 then none else some n)
    last zero = refl
    last (suc n) = rw (max_id-counted 0 n) (ground arith)

-- Whatever is written to a new history, by any sequence of its writing methods, is read back as a
-- book of hands keeps it. The last hand id is the number of hands begun; and for each hand id up
-- to it get_hand_history returns that hand with its blinds, its dealer, its players and whether it
-- has ended, its actions in the order in which they were recorded, the latest cards for each
-- phase, and the latest showdown row of each player.
pub replay-Told :
    (ws : List Write)
    → let db = replay ws new_db in
      let b = enter_all ws empty_book in
      (get_last_hand_id db ≡ (if b.hands == 0 then none else some b.hands))
      × ((id : ℕ) → 1 ≤ id → id ≤ b.hands → Told id db b)
unfolding new_db empty_book boards_from find_hand
replay-Told ws =
    let start : Agrees new_db empty_book = record {
      ids = refl;
      hand = λ id. refl;
      actions = λ id. refl;
      board = λ id phase. refl;
      shown = λ id player. refl;
    } in
    let a = replay-Agrees ws new_db empty_book start in
    (last-Agrees _ _ a, λ id. Agrees-Told id _ _ a)
