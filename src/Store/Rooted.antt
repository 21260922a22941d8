-- ===== src/Store/Rooted.antt =====
-- Foreign keys: each column is on a board, each card in a column, each checklist and each assigned
-- label on a card, each item in a checklist, and each assigned label is there. What a cascade does to that.
use kan_pad.Base.{
  ℕ, ◌≡◌, refl, ◌∙◌, Bool, true, false, not, List, [], ◌∷◌, map, Member, Member-select, arith, any,
  any-select-weaken, select, ◌==◌,
}
use kan_pad.Store.Cascade.{
  is_in, cascade_checklists, cascade_cards, cascade_columns, cascade_boards,
}
use kan_pad.Store.Distinct.{same_id}
use kan_pad.Store.Entities.{
  Board, BoardColumn, Card, CardLabel, Checklist, ChecklistItem, Label, Db,
}

-- The rows whose foreign key is not among the ids that are gone have their row.
abbrev pub HangsOn : {C P : Type 0} → List ℕ → (C → ℕ) → (P → ℕ) → List C → List P → Type 0
HangsOn {C} gone fk id cs ps =
    (c : C) → Member c cs → is_in gone (fk c) ≡ false → any (λ p. id p == fk c) ps ≡ true

pub record IsRooted (db : Db) : Type 0 where
  pub columns : HangsOn [] BoardColumn.board_id Board.id db.columns db.boards
  pub cards : HangsOn [] Card.column_id BoardColumn.id db.cards db.columns
  pub checklists : HangsOn [] Checklist.card_id Card.id db.checklists db.cards
  pub card_labels : HangsOn [] CardLabel.card_id Card.id db.card_labels db.cards
  pub labels : HangsOn [] CardLabel.label_id Label.id db.card_labels db.labels
  pub checklist_items :
      HangsOn [] ChecklistItem.checklist_id Checklist.id db.checklist_items db.checklists

module _ {C P : Type 0} (fk : C → ℕ) (id : P → ℕ) where
  -- what hung on rows that are gone is cut
  cut :
      (gone : List ℕ) (cs : List C) (ps : List P)
      → HangsOn gone fk id cs ps
      → HangsOn [] fk id (select (λ c. not (is_in gone (fk c))) cs) ps
  cut gone cs ps h c m _ =
      let (mc, kept) = Member-select (λ c. not (is_in gone (fk c))) c cs m in h c mc (ground arith)

  -- one row is removed
  pub start :
      (x : P) (cs : List C) (ps : List P)
      → HangsOn [] fk id cs ps
      → HangsOn (id x ∷ []) fk id cs (select (λ p. not (same_id id x p)) ps)
  start x cs ps h c m other =
      any-select-weaken (λ p. id p == fk c) (λ p. not (same_id id x p)) ps (λ p e. ground arith)
      ∙ h c m refl

  -- the rows with an id that is not gone are those that stay
  survivor :
      (test : P → Bool) (i : ℕ) (ps : List P)
      → any (λ p. id p == i) ps ≡ true
      → is_in (map id (select test ps)) i ≡ false
      → any (λ p. id p == i) (select (λ p. not (test p)) ps) ≡ true
  survivor test i [] h n = h
  survivor test i (p ∷ ps) h n = ground (arith, survivor test i ps)

  -- several rows are removed, by a test
  pub next :
      (test : P → Bool) (cs : List C) (ps : List P)
      → HangsOn [] fk id cs ps
      → HangsOn (map id (select test ps)) fk id cs (select (λ p. not (test p)) ps)
  next test cs ps h c m other = survivor test (fk c) ps (h c m refl) other

-- Rows that stay keep what they hung on.
pub others :
    {C P : Type 0} (fk : C → ℕ) (id : P → ℕ) (cs : List C) (ps : List P) (test : C → Bool)
    → HangsOn [] fk id cs ps
    → HangsOn [] fk id (select test cs) ps
others fk id cs ps test h c m e = h c (Member-select test c cs m).0 e

-- Each cascade completes a removal from the table above it.
pub cascade_checklists-IsRooted :
    (gone : List ℕ) (db : Db)
    → HangsOn [] BoardColumn.board_id Board.id db.columns db.boards
    → HangsOn [] Card.column_id BoardColumn.id db.cards db.columns
    → HangsOn [] Checklist.card_id Card.id db.checklists db.cards
    → HangsOn [] CardLabel.card_id Card.id db.card_labels db.cards
    → HangsOn gone ChecklistItem.checklist_id Checklist.id db.checklist_items db.checklists
    → HangsOn [] CardLabel.label_id Label.id db.card_labels db.labels
    → IsRooted (cascade_checklists gone db)
unfolding cascade_checklists
cascade_checklists-IsRooted gone db columns cards checklists labels items named = record {
  columns = columns;
  cards = cards;
  checklists = checklists;
  card_labels = labels;
  labels = named;
  checklist_items =
      cut ChecklistItem.checklist_id Checklist.id gone db.checklist_items db.checklists items;
}

pub cascade_cards-IsRooted :
    (gone : List ℕ) (db : Db)
    → HangsOn [] BoardColumn.board_id Board.id db.columns db.boards
    → HangsOn [] Card.column_id BoardColumn.id db.cards db.columns
    → HangsOn gone Checklist.card_id Card.id db.checklists db.cards
    → HangsOn gone CardLabel.card_id Card.id db.card_labels db.cards
    → HangsOn [] ChecklistItem.checklist_id Checklist.id db.checklist_items db.checklists
    → HangsOn [] CardLabel.label_id Label.id db.card_labels db.labels
    → IsRooted (cascade_cards gone db)
unfolding cascade_cards
cascade_cards-IsRooted gone db columns cards checklists labels items named =
    cascade_checklists-IsRooted _ _ columns cards
      (cut Checklist.card_id Card.id gone db.checklists db.cards checklists)
      (cut CardLabel.card_id Card.id gone db.card_labels db.cards labels)
      (next ChecklistItem.checklist_id Checklist.id (λ l. is_in gone (Checklist.card_id l))
        db.checklist_items db.checklists items)
      (others CardLabel.label_id Label.id db.card_labels db.labels
        (λ a. not (is_in gone (CardLabel.card_id a))) named)

pub cascade_columns-IsRooted :
    (gone : List ℕ) (db : Db)
    → HangsOn [] BoardColumn.board_id Board.id db.columns db.boards
    → HangsOn gone Card.column_id BoardColumn.id db.cards db.columns
    → HangsOn [] Checklist.card_id Card.id db.checklists db.cards
    → HangsOn [] CardLabel.card_id Card.id db.card_labels db.cards
    → HangsOn [] ChecklistItem.checklist_id Checklist.id db.checklist_items db.checklists
    → HangsOn [] CardLabel.label_id Label.id db.card_labels db.labels
    → IsRooted (cascade_columns gone db)
unfolding cascade_columns
cascade_columns-IsRooted gone db columns cards checklists labels items named =
    cascade_cards-IsRooted _ _ columns
      (cut Card.column_id BoardColumn.id gone db.cards db.columns cards)
      (next Checklist.card_id Card.id (λ c. is_in gone (Card.column_id c)) db.checklists db.cards
        checklists)
      (next CardLabel.card_id Card.id (λ c. is_in gone (Card.column_id c)) db.card_labels db.cards
        labels)
      items named

pub cascade_boards-IsRooted :
    (gone : List ℕ) (db : Db)
    → HangsOn gone BoardColumn.board_id Board.id db.columns db.boards
    → HangsOn [] Card.column_id BoardColumn.id db.cards db.columns
    → HangsOn [] Checklist.card_id Card.id db.checklists db.cards
    → HangsOn [] CardLabel.card_id Card.id db.card_labels db.cards
    → HangsOn [] ChecklistItem.checklist_id Checklist.id db.checklist_items db.checklists
    → HangsOn [] CardLabel.label_id Label.id db.card_labels db.labels
    → IsRooted (cascade_boards gone db)
unfolding cascade_boards
cascade_boards-IsRooted gone db columns cards checklists labels items named =
    cascade_columns-IsRooted _ _
      (cut BoardColumn.board_id Board.id gone db.columns db.boards columns)
      (next Card.column_id BoardColumn.id (λ c. is_in gone (BoardColumn.board_id c)) db.cards
        db.columns cards)
      checklists labels items named
