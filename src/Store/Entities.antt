-- ===== src/Store/Entities.antt =====
-- The entities of backend/src/*/entities, a record for each class and a table for each entity.
-- A relation field is the row that its foreign key names; `updated_at` is written and read by the
-- ORM alone and is left out, and so is `created_at` where no code orders by it.
use Prim.Native.Nat.{ℕ}
use mathlib.Core.Bool.{Bool}
use mathlib.Core.List.{List}
use mathlib.Core.Option.{Option}
use kan_pad.Base.Int.{ℤ}
use kan_pad.Base.Text.{Text}

pub record User : Type 0 where
  pub id : ℕ
  pub email : Text
  pub password : Text
  pub role : Text

pub record Project : Type 0 where
  pub id : ℕ
  pub name : Text
  pub user_id : ℕ
  pub created_at : ℕ

pub data ViewMode : Type 0 where
  board list : ViewMode

pub record Board : Type 0 where
  pub id : ℕ
  pub name : Text
  pub background_color : Text
  pub user_id : ℕ
  pub project_id : Option ℕ
  pub is_archived : Bool
  pub view_mode : ViewMode

-- class `BoardColumn`
pub record BoardColumn : Type 0 where
  pub id : ℕ
  pub name : Text
  pub position : ℤ
  pub board_id : ℕ

-- `due_date` is the date's time in milliseconds.
pub record Card : Type 0 where
  pub id : ℕ
  pub title : Text
  pub column_id : ℕ
  pub position : ℤ
  pub description : Option Text
  pub due_date : Option ℤ
  pub created_at : ℕ

pub record CardLabel : Type 0 where
  pub card_id : ℕ
  pub label_id : ℕ

pub data Color : Type 0 where
  red orange yellow green blue purple : Color

pub record Label : Type 0 where
  pub id : ℕ
  pub name : Text
  pub color : Color
  pub user_id : ℕ

pub record Checklist : Type 0 where
  pub id : ℕ
  pub title : Text
  pub card_id : ℕ
  pub created_at : ℕ

pub record ChecklistItem : Type 0 where
  pub id : ℕ
  pub text : Text
  pub is_completed : Bool
  pub checklist_id : ℕ
  pub position : ℤ

pub record Tag : Type 0 where
  pub id : ℕ
  pub name : Text
  pub color : Text
  pub user_id : ℕ

-- `tag_ids` are the rows of the join table `note_tags`.
pub record Note : Type 0 where
  pub id : ℕ
  pub title : Text
  pub content : Text
  pub board_id : Option ℕ
  pub project_id : Option ℕ
  pub card_id : Option ℕ
  pub user_id : ℕ
  pub tag_ids : List ℕ

-- The tables.
pub record Db : Type 0 where
  pub users : List User
  pub projects : List Project
  pub boards : List Board
  pub columns : List BoardColumn
  pub cards : List Card
  pub card_labels : List CardLabel
  pub labels : List Label
  pub checklists : List Checklist
  pub checklist_items : List ChecklistItem
  pub tags : List Tag
  pub notes : List Note
