-- ===== src/Store/Laws.antt =====
-- The hypotheses on the whole of `Orm`: each repository is documented, a transaction that throws
-- is undone, and what else the proofs rely on.
use kan_pad.Base.{ℕ, Option, none, some, ◌≡◌, true, ◌&&◌, Bool, ◌==◌}
use kan_pad.Base.Text.{Text}
use kan_pad.Store.Distinct.{same_id}
use kan_pad.Store.Entities.{
  User, Project, Board, BoardColumn, Card, CardLabel, Label, Checklist, ChecklistItem, Tag, Note,
  Db,
}
use kan_pad.Store.Repository.{Orm}
use kan_pad.Store.Repository.Documented.{IsDocumented, IsGenerated}

abbrev pub same_assignment : CardLabel → CardLabel → Bool
same_assignment a b = a.card_id == b.card_id && a.label_id == b.label_id

pub record IsLawful (o : Orm) : Type 0 where
  pub users : IsDocumented (same_id User.id) (Orm.users o)
  pub projects : IsDocumented (same_id Project.id) (Orm.projects o)
  pub boards : IsDocumented (same_id Board.id) (Orm.boards o)
  pub columns : IsDocumented (same_id BoardColumn.id) (Orm.columns o)
  pub cards : IsDocumented (same_id Card.id) (Orm.cards o)
  pub card_labels : IsDocumented same_assignment (Orm.card_labels o)
  pub labels : IsDocumented (same_id Label.id) (Orm.labels o)
  pub checklists : IsDocumented (same_id Checklist.id) (Orm.checklists o)
  pub checklist_items : IsDocumented (same_id ChecklistItem.id) (Orm.checklist_items o)
  pub tags : IsDocumented (same_id Tag.id) (Orm.tags o)
  pub notes : IsDocumented (same_id Note.id) (Orm.notes o)
  pub new_users : IsGenerated User.id (Orm.users o)
  pub new_projects : IsGenerated Project.id (Orm.projects o)
  pub new_boards : IsGenerated Board.id (Orm.boards o)
  pub new_columns : IsGenerated BoardColumn.id (Orm.columns o)
  pub new_cards : IsGenerated Card.id (Orm.cards o)
  pub new_labels : IsGenerated Label.id (Orm.labels o)
  pub new_checklists : IsGenerated Checklist.id (Orm.checklists o)
  pub new_checklist_items : IsGenerated ChecklistItem.id (Orm.checklist_items o)
  pub new_tags : IsGenerated Tag.id (Orm.tags o)
  pub new_notes : IsGenerated Note.id (Orm.notes o)
  pub rollback_lem : (before after : Db) → Orm.rollback o before after ≡ before
  pub foreign_key_loaded : (i : ℕ) (column : Option ℕ) → Orm.foreign_key o (some i) column ≡ some i
  pub foreign_key_unloaded : (column : Option ℕ) → Orm.foreign_key o none column ≡ column
  pub collate_refl : (a : Text) → Orm.collate o a a ≡ true
  pub collate_sym : (a b : Text) → Orm.collate o a b ≡ true → Orm.collate o b a ≡ true
  pub collate_trans :
      (a b c : Text)
      → Orm.collate o a b ≡ true
      → Orm.collate o b c ≡ true
      → Orm.collate o a c ≡ true
