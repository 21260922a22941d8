-- ===== src/Store/Cascade.antt =====
-- What a deletion takes along: the `onDelete` of the foreign keys, as the entities and the
-- migrations declare them. Each function takes the ids of the rows that are gone.
use Prim.Native.Nat.{ℕ}
use mathlib.Core.Bool.{Bool, false, not}
use mathlib.Core.List.{List, map}
use mathlib.Core.Option.{Option, none, some}
use kan_pad.Base.{select, any, ◌==◌, if◌then◌else◌}
use kan_pad.Store.Entities.{Board, BoardColumn, Card, CardLabel, Checklist, ChecklistItem, Note, Db}

abbrev pub is_in : List ℕ → ℕ → Bool
is_in ids i = any (λ j. i == j) ids

abbrev pub links_to : List ℕ → Option ℕ → Bool
links_to ids none = false
links_to ids (some i) = is_in ids i

unfoldable pub cascade_checklists : List ℕ → Db → Db
cascade_checklists gone db = record db {
  checklist_items =
      select (λ i. not (is_in gone (ChecklistItem.checklist_id i))) db.checklist_items;
}

unfoldable pub cascade_cards : List ℕ → Db → Db
cascade_cards gone db =
    cascade_checklists
      (map Checklist.id (select (λ l. is_in gone (Checklist.card_id l)) db.checklists))
      (record db {
        card_labels = select (λ l. not (is_in gone (CardLabel.card_id l))) db.card_labels;
        checklists = select (λ l. not (is_in gone (Checklist.card_id l))) db.checklists;
        notes = select (λ n. not (links_to gone (Note.card_id n))) db.notes;
      })

unfoldable pub cascade_columns : List ℕ → Db → Db
cascade_columns gone db =
    cascade_cards (map Card.id (select (λ c. is_in gone (Card.column_id c)) db.cards))
      (record db { cards = select (λ c. not (is_in gone (Card.column_id c))) db.cards })

unfoldable pub cascade_boards : List ℕ → Db → Db
cascade_boards gone db =
    cascade_columns
      (map BoardColumn.id (select (λ c. is_in gone (BoardColumn.board_id c)) db.columns))
      (record db {
        columns = select (λ c. not (is_in gone (BoardColumn.board_id c))) db.columns;
        notes = select (λ n. not (links_to gone (Note.board_id n))) db.notes;
      })

abbrev pub unlink : List ℕ → Option ℕ → Option ℕ
unlink gone i = if links_to gone i then none else i

abbrev pub unlink_board : List ℕ → Board → Board
unlink_board gone b = record b { project_id = unlink gone b.project_id }

-- Boards outlive their project (SET NULL), its notes do not.
unfoldable pub cascade_projects : List ℕ → Db → Db
cascade_projects gone db = record db {
  boards = map (unlink_board gone) db.boards;
  notes = select (λ n. not (links_to gone (Note.project_id n))) db.notes;
}

unfoldable pub cascade_labels : List ℕ → Db → Db
cascade_labels gone db = record db {
  card_labels = select (λ l. not (is_in gone (CardLabel.label_id l))) db.card_labels;
}

abbrev pub unlink_note : List ℕ → Note → Note
unlink_note gone n = record n { tag_ids = select (λ t. not (is_in gone t)) n.tag_ids }

unfoldable pub cascade_tags : List ℕ → Db → Db
cascade_tags gone db = record db { notes = map (unlink_note gone) db.notes }
