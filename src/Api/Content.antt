-- ===== src/Api/Content.antt =====
-- What the handlers make of the entities: backend/src/cards/dto/card-response.dto.ts and the
-- functions `to…Response` of the controllers.
use kan_pad.Base.{
  ℕ, suc, ◌+◌, ◌/◌, ◌%◌, Bool, true, false, ◌||◌, List, [], ◌∷◌, ◌++◌, map, Option, none, some,
  length, select, get_or, ltb, ◌==◌, if◌then◌else◌,
}
use kan_pad.Base.Int.{ℤ}
use kan_pad.Base.Text.{Text, codes}
use kan_pad.Cards.Service.{CardDetail}
use kan_pad.Columns.View.{ColumnView, sort_by_position}
use kan_pad.Store.Entities.{
  Board, ViewMode, BoardColumn, Card, Db, Label, Color, Checklist, ChecklistItem, Project,
}
use kan_pad.Store.Repository.{Orm}
use kan_pad.Summary.{CardSummary, Progress}
pub mod Counted
pub mod Numerals

-- the relations of a board in a response
pub record ProjectRef : Type 0 where
  pub id : ℕ
  pub name : Text

pub record ColumnRef : Type 0 where
  pub id : ℕ
  pub name : Text
  pub position : ℤ

-- interface `BoardResponse`
pub record BoardResponse : Type 0 where
  pub id : ℕ
  pub name : Text
  pub background_color : Text
  pub project_id : Option ℕ
  pub project : Option ProjectRef
  pub columns : Option (List ColumnRef)
  pub is_archived : Bool
  pub view_mode : ViewMode

-- the relation `project`: the row that the foreign key names
unfoldable pub project_ref : Orm → Db → Board → Option ProjectRef
project_ref o db b = elim (Board.project_id b) [
  | none ↦ none
  | some i ↦ elim (o.projects.find_one (λ p. Project.id p == i) db.projects) [
    | none ↦ none
    | some p ↦ some (record { id = Project.id p; name = Project.name p })
  ]
]

-- the relation `columns`
unfoldable pub column_refs : Orm → Db → Board → List ColumnRef
column_refs o db b =
    map (λ c. record { id = c.id; name = c.name; position = c.position })
      (o.columns.find (λ c. BoardColumn.board_id c == Board.id b) db.columns)

unfoldable pub to_board_response : Orm → Db → Board → BoardResponse
unfolding project_ref
to_board_response o db b = record {
  id = b.id;
  name = b.name;
  background_color = b.background_color;
  project_id = b.project_id;
  project = project_ref o db b;
  columns = none;
  is_archived = b.is_archived;
  view_mode = b.view_mode;
}

-- interface `ProjectResponse`; `boardCount` is always 0
pub record ProjectResponse : Type 0 where
  pub id : ℕ
  pub name : Text
  pub board_count : ℕ

unfoldable pub to_project_response : Project → ProjectResponse
to_project_response p = record { id = p.id; name = p.name; board_count = 0 }

-- the labels of a card in a response
pub record LabelRef : Type 0 where
  pub id : ℕ
  pub name : Text
  pub color : Color

abbrev pub to_label_ref : Label → LabelRef
to_label_ref l = record { id = l.id; name = l.name; color = l.color }

-- interface `CardSummaryResponse`
pub record CardSummaryResponse : Type 0 where
  pub id : ℕ
  pub title : Text
  pub has_description : Bool
  pub column_id : ℕ
  pub position : ℤ
  pub due_date : Option ℤ
  pub labels : List LabelRef
  pub checklist_progress : Option Progress

-- `toCardSummaryResponse`, of a card with a Boolean `has_description`
unfoldable pub to_card_summary_response : CardSummary → CardSummaryResponse
to_card_summary_response c = record {
  id = Card.id c.card;
  title = Card.title c.card;
  has_description = c.has_description;
  column_id = Card.column_id c.card;
  position = Card.position c.card;
  due_date = Card.due_date c.card;
  labels = map to_label_ref c.labels;
  checklist_progress = c.checklist_progress;
}

-- interface `ColumnResponse`
pub record ColumnResponse : Type 0 where
  pub id : ℕ
  pub name : Text
  pub position : ℤ
  pub board_id : ℕ
  pub cards : List CardSummaryResponse

abbrev pub to_column_response : BoardColumn → List CardSummary → ColumnResponse
to_column_response c cards = record {
  id = c.id;
  name = c.name;
  position = c.position;
  board_id = c.board_id;
  cards = map to_card_summary_response cards;
}

-- a column with its cards, sorted again
unfoldable pub to_column_with_cards : ColumnView → ColumnResponse
unfolding sort_by_position to_card_summary_response
to_column_with_cards v = to_column_response v.column (sort_by_position v.cards)

-- `toChecklistResponse`
pub record ChecklistResponse : Type 0 where
  pub id : ℕ
  pub title : Text
  pub card_id : ℕ
  pub items : List ChecklistItem

abbrev pub to_checklist_response : Checklist × List ChecklistItem → ChecklistResponse
to_checklist_response (l, items) = record {
  id = l.id;
  title = l.title;
  card_id = l.card_id;
  items = items;
}

-- interface `CardResponse`
pub record CardResponse : Type 0 where
  pub id : ℕ
  pub title : Text
  pub column_id : ℕ
  pub position : ℤ
  pub description : Option Text
  pub due_date : Option ℤ
  pub labels : List LabelRef
  pub checklist_progress : Option Progress
  pub checklists : List ChecklistResponse

-- `card.checklists?.flatMap((cl) => cl.items ?? []) ?? []`
unfoldable pub all_items : List (Checklist × List ChecklistItem) → List ChecklistItem
all_items [] = []
all_items ((l, items) ∷ lists) = items ++ all_items lists

-- `{ completed, total, percent }`, if there is an item or a checklist
unfoldable pub card_progress : Orm → List (Checklist × List ChecklistItem) → Option Progress
unfolding all_items
card_progress o lists =
    let total = length (all_items lists) in
    let completed = length (select ChecklistItem.is_completed (all_items lists)) in
    if ltb 0 total || ltb 0 (length lists)
    then some (record {
      completed = completed;
      total = total;
      percent = if total == 0 then 0 else o.round_percent completed total;
    })
    else none

-- `toCardResponse` and `toCardDetailResponse`
unfoldable pub to_card_response : Orm → CardDetail → CardResponse
unfolding card_progress
to_card_response o d = record {
  id = Card.id d.card;
  title = Card.title d.card;
  column_id = Card.column_id d.card;
  position = Card.position d.card;
  description = Card.description d.card;
  due_date = Card.due_date d.card;
  labels = map to_label_ref d.labels;
  checklist_progress = card_progress o d.checklists;
  checklists = map to_checklist_response d.checklists;
}

-- a card whose relations `cardLabels` and `checklists` are not loaded
abbrev pub bare_detail : Card → CardDetail
bare_detail c = record { card = c; labels = []; checklists = [] }

-- the digits of a number, as a template literal prints it
unfoldable pub decimal : ℕ → ℕ → Text → Text
decimal ℕ.zero n digits = digits
decimal (suc fuel) n digits =
    let digit = 48 + n % 10 in
    let rest = decimal fuel (n / 10) (digit ∷ digits) in
    if n / 10 == 0 then digit ∷ digits else rest

-- `${movedCount} cards moved to ${targetName}`; n + 1 rounds are enough for the digits of n
unfoldable pub moved_message : ℕ → Text → Text
unfolding decimal
moved_message count name = decimal (suc count) count [] ++ (codes " cards moved to " ++ name)
