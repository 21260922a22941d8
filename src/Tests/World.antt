-- ===== src/Tests/World.antt =====
-- The engine over the database in memory, and a small database with two users: user 1 has a board
-- with two columns and three cards, user 2 has a board.
use kan_pad.Base.{Option, some, ℕ, ◌∙◌, sym, refl, Bool, true, false, [], ◌∷◌, none, ◌==◌}
use kan_pad.Base.Int.{pos}
use kan_pad.Base.Text.{text_eq, text_eq_iff}
use kan_pad.Store.Distinct.{same_id}
use kan_pad.Store.Entities.{
  User, Project, Board, BoardColumn, Card, CardLabel, Label, Checklist, ChecklistItem, Tag, Note,
  Db, ViewMode, Color,
}
use kan_pad.Store.Keyed.{IsKeyed}
use kan_pad.Store.Laws.{IsLawful, same_assignment}
use kan_pad.Store.Repository.{Orm}
use kan_pad.Tests.Lawful.{in_memory-IsDocumented, in_memory-IsGenerated}
use kan_pad.Tests.Memory.{in_memory}

abbrev pub loaded_or : Option ℕ → Option ℕ → Option ℕ
loaded_or none column = column
loaded_or (some i) column = some i

abbrev pub engine : Orm
engine = record {
  users = in_memory (same_id User.id) User.id;
  projects = in_memory (same_id Project.id) Project.id;
  boards = in_memory (same_id Board.id) Board.id;
  columns = in_memory (same_id BoardColumn.id) BoardColumn.id;
  cards = in_memory (same_id Card.id) Card.id;
  card_labels = in_memory same_assignment CardLabel.card_id;
  labels = in_memory (same_id Label.id) Label.id;
  checklists = in_memory (same_id Checklist.id) Checklist.id;
  checklist_items = in_memory (same_id ChecklistItem.id) ChecklistItem.id;
  tags = in_memory (same_id Tag.id) Tag.id;
  notes = in_memory (same_id Note.id) Note.id;
  rollback = λ before after. before;
  foreign_key = loaded_or;
  collate = text_eq;
  is_like = λ search title. text_eq search title;
  user_fault = λ db. none;
  new_date = λ text. pos 0;
  round_percent = λ completed total. completed;
  is_regexp_space = λ code. code == 32;
}

pub engine-IsLawful : IsLawful engine
engine-IsLawful = record {
  users = in_memory-IsDocumented _ User.id;
  projects = in_memory-IsDocumented _ Project.id;
  boards = in_memory-IsDocumented _ Board.id;
  columns = in_memory-IsDocumented _ BoardColumn.id;
  cards = in_memory-IsDocumented _ Card.id;
  card_labels = in_memory-IsDocumented _ CardLabel.card_id;
  labels = in_memory-IsDocumented _ Label.id;
  checklists = in_memory-IsDocumented _ Checklist.id;
  checklist_items = in_memory-IsDocumented _ ChecklistItem.id;
  tags = in_memory-IsDocumented _ Tag.id;
  notes = in_memory-IsDocumented _ Note.id;
  new_users = in_memory-IsGenerated _ User.id;
  new_projects = in_memory-IsGenerated _ Project.id;
  new_boards = in_memory-IsGenerated _ Board.id;
  new_columns = in_memory-IsGenerated _ BoardColumn.id;
  new_cards = in_memory-IsGenerated _ Card.id;
  new_labels = in_memory-IsGenerated _ Label.id;
  new_checklists = in_memory-IsGenerated _ Checklist.id;
  new_checklist_items = in_memory-IsGenerated _ ChecklistItem.id;
  new_tags = in_memory-IsGenerated _ Tag.id;
  new_notes = in_memory-IsGenerated _ Note.id;
  rollback_lem = λ before after. refl;
  foreign_key_loaded = λ i column. refl;
  foreign_key_unloaded = λ column. refl;
  collate_refl = λ a. (text_eq_iff a a).1 refl;
  collate_sym = λ a b h. (text_eq_iff b a).1 (sym ((text_eq_iff a b).0 h));
  collate_trans = λ a b c h k. (text_eq_iff a c).1 ((text_eq_iff a b).0 h ∙ (text_eq_iff b c).0 k);
}

abbrev pub user_at : ℕ → User
user_at i = record { id = i; email = i ∷ []; password = []; role = [] }

abbrev pub board_at : ℕ → ℕ → Board
board_at i user_id = record {
  id = i;
  name = [];
  background_color = [];
  user_id = user_id;
  project_id = none;
  is_archived = false;
  view_mode = ViewMode.board;
}

abbrev pub column_at : ℕ → ℕ → BoardColumn
column_at i p = record { id = i; name = i ∷ []; position = pos p; board_id = 1 }

abbrev pub card_at : ℕ → ℕ → ℕ → Card
card_at i column_id p = record {
  id = i;
  title = i ∷ [];
  column_id = column_id;
  position = pos p;
  description = none;
  due_date = none;
  created_at = i;
}

abbrev pub label_at : ℕ → ℕ → Label
label_at i user_id = record { id = i; name = i ∷ []; color = Color.red; user_id = user_id }

abbrev pub tag_at : ℕ → ℕ → Tag
tag_at i user_id = record { id = i; name = i ∷ []; color = []; user_id = user_id }

abbrev pub checklist_at : ℕ → ℕ → Checklist
checklist_at i card_id = record { id = i; title = []; card_id = card_id; created_at = i }

abbrev pub item_at : ℕ → ℕ → Bool → ChecklistItem
item_at i p done = record {
  id = i;
  text = [];
  is_completed = done;
  checklist_id = 1;
  position = pos p;
}

abbrev pub note_at : ℕ → ℕ → Note
note_at i user_id = record {
  id = i;
  title = [];
  content = [];
  board_id = none;
  project_id = none;
  card_id = none;
  user_id = user_id;
  tag_ids = [];
}

abbrev pub world : Db
world = record {
  users = user_at 1 ∷ user_at 2 ∷ [];
  projects = record { id = 1; name = []; user_id = 1; created_at = 0 } ∷ [];
  boards = board_at 1 1 ∷ board_at 2 2 ∷ [];
  columns = column_at 1 0 ∷ column_at 2 1 ∷ [];
  cards = card_at 1 1 0 ∷ card_at 2 1 1 ∷ card_at 3 2 0 ∷ [];
  card_labels = record { card_id = 1; label_id = 1 } ∷ [];
  labels = label_at 1 1 ∷ label_at 2 2 ∷ [];
  checklists = checklist_at 1 1 ∷ [];
  checklist_items = item_at 1 0 true ∷ item_at 2 1 false ∷ [];
  tags = tag_at 1 1 ∷ tag_at 2 1 ∷ [];
  notes = note_at 1 1 ∷ [];
}

pub world-IsKeyed : IsKeyed world
world-IsKeyed = record {
  users = (refl, (refl, tt));
  projects = (refl, tt);
  boards = (refl, (refl, tt));
  columns = (refl, (refl, tt));
  cards = (refl, (refl, (refl, tt)));
  labels = (refl, (refl, tt));
  checklists = (refl, tt);
  checklist_items = (refl, (refl, tt));
  tags = (refl, (refl, tt));
  notes = (refl, tt);
}
