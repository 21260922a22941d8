-- ===== src/Store/Relations.antt =====
-- The `relations` option of a find: the rows that a loaded row's foreign keys name, or the rows
-- whose foreign keys name it.
use Prim.Native.Nat.{ℕ}
use mathlib.Core.List.{List}
use mathlib.Core.Option.{Option}
use kan_pad.Base.{◌==◌}
use kan_pad.Store.Action.{Action, gets, or_throw, type_error, ◌>>=◌}
use kan_pad.Store.Entities.{
  Project, Board, BoardColumn, Card, Label, Checklist, ChecklistItem, Tag, Note,
}
use kan_pad.Store.Repository.{Orm}

module _ (o : Orm) where
  -- `findOne({ where: { id } })` on each table
  abbrev pub card_at : ℕ → Action (Option Card)
  card_at id = gets (λ db. o.cards.find_one (λ c. Card.id c == id) db.cards)

  abbrev pub column_at : ℕ → Action (Option BoardColumn)
  column_at id = gets (λ db. o.columns.find_one (λ c. BoardColumn.id c == id) db.columns)

  abbrev pub board_at : ℕ → Action (Option Board)
  board_at id = gets (λ db. o.boards.find_one (λ b. Board.id b == id) db.boards)

  abbrev pub project_at : ℕ → Action (Option Project)
  project_at id = gets (λ db. o.projects.find_one (λ p. Project.id p == id) db.projects)

  abbrev pub label_at : ℕ → Action (Option Label)
  label_at id = gets (λ db. o.labels.find_one (λ l. Label.id l == id) db.labels)

  abbrev pub checklist_at : ℕ → Action (Option Checklist)
  checklist_at id = gets (λ db. o.checklists.find_one (λ l. Checklist.id l == id) db.checklists)

  abbrev pub checklist_item_at : ℕ → Action (Option ChecklistItem)
  checklist_item_at id =
      gets (λ db. o.checklist_items.find_one (λ i. ChecklistItem.id i == id) db.checklist_items)

  abbrev pub tag_at : ℕ → Action (Option Tag)
  tag_at id = gets (λ db. o.tags.find_one (λ t. Tag.id t == id) db.tags)

  abbrev pub note_at : ℕ → Action (Option Note)
  note_at id = gets (λ db. o.notes.find_one (λ n. Note.id n == id) db.notes)

  -- `column.board`
  abbrev pub board_of : BoardColumn → Action Board
  board_of column = board_at column.board_id >>= or_throw type_error

  -- `card.column`
  abbrev pub column_of : Card → Action BoardColumn
  column_of card = column_at card.column_id >>= or_throw type_error

  -- `card.column.board.user_id`
  abbrev pub owner_of_card : Card → Action ℕ
  owner_of_card card = do
    column ← column_of card
    board ← board_of column
    gets (λ _. board.user_id)

  -- `checklist.card`
  abbrev pub card_of : Checklist → Action Card
  card_of checklist = card_at checklist.card_id >>= or_throw type_error

  -- `item.checklist`
  abbrev pub checklist_of : ChecklistItem → Action Checklist
  checklist_of item = checklist_at item.checklist_id >>= or_throw type_error

  -- `checklist.items`
  abbrev pub items_of : Checklist → Action (List ChecklistItem)
  items_of checklist = gets (λ db.
      o.checklist_items.find (λ i. ChecklistItem.checklist_id i == checklist.id) db.checklist_items)
