-- ===== src/Store/Repository.antt =====
-- What the services call of TypeORM and of the JavaScript engine: a parameter of the model.
-- `Repository` is the interface of one entity, over the rows of its table; `Orm` collects the
-- repositories that a service is constructed with.
pub mod Documented
use Prim.Native.Nat.{ℕ}
use mathlib.Core.Bool.{Bool}
use mathlib.Core.List.{List}
use mathlib.Core.Option.{Option}
use kan_pad.Base.Int.{ℤ}
use kan_pad.Base.Text.{Text}
use kan_pad.Store.Entities.{
  User, Project, Board, BoardColumn, Card, CardLabel, Label, Checklist, ChecklistItem, Tag, Note,
  Db,
}

pub data Order : Type 0 where
  asc desc : Order

-- What the database fills in for a new row.
pub record Generated : Type 0 where
  pub id : ℕ
  pub created_at : ℕ

-- A `where` option is a test of rows, an `order` option a direction and a numeric field.
pub record Repository (Row : Type 0) : Type 0 where
  -- `findOne({ where })`
  pub find_one : (Row → Bool) → List Row → Option Row
  -- `find({ where })`, with no order or one by a field that the model leaves out or by a text
  pub find : (Row → Bool) → List Row → List Row
  -- `find({ where, order })`, and the query builder's `orderBy` with `getMany`
  pub find_ordered : Order → (Row → ℤ) → (Row → Bool) → List Row → List Row
  -- the query builder's `take` and `skip`, of the rows that its `where` admits
  pub find_page : ℤ → ℤ → (Row → Bool) → List Row → List Row
  -- `select('MAX(field)')` with `where`; `none` is NULL
  pub max : (Row → ℤ) → (Row → Bool) → List Row → Option ℤ
  -- `save(create({ … }))`: a row that has no id yet
  pub insert : (Generated → Row) → List Row → Row × List Row
  -- `save(row)`
  pub save : Row → List Row → List Row
  -- `update(id, { … })`
  pub update : ℕ → (Row → Row) → List Row → List Row
  -- `remove(row)`
  pub remove : Row → List Row → List Row
  -- `delete({ … })`: the rows deleted (the code reads their number), and the table without them
  pub delete : (Row → Bool) → List Row → List Row × List Row

-- A QueryFailedError whose code is ER_DUP_ENTRY, and any other error.
pub data DbFault : Type 0 where
  dup_entry other : DbFault

pub record Orm : Type 0 where
  pub users : Repository User
  pub projects : Repository Project
  pub boards : Repository Board
  pub columns : Repository BoardColumn
  pub cards : Repository Card
  pub card_labels : Repository CardLabel
  pub labels : Repository Label
  pub checklists : Repository Checklist
  pub checklist_items : Repository ChecklistItem
  pub tags : Repository Tag
  pub notes : Repository Note
  -- the tables after a transaction that threw, from those before it and those at the throw
  pub rollback : Db → Db → Db
  -- the foreign key that `save` writes, from the key of the relation's row, if that is loaded, and
  -- the value of the column
  pub foreign_key : Option ℕ → Option ℕ → Option ℕ
  -- equality of texts in a `where`, by the collation of the database
  pub collate : Text → Text → Bool
  -- `title LIKE '%search%'`, from the search and the title
  pub is_like : Text → Text → Bool
  -- the fault of an INSERT into `users`, if any: the environment decides it
  pub user_fault : Db → Option DbFault
  -- `new Date(text)`, as milliseconds
  pub new_date : Text → ℤ
  -- `Math.round((completed / total) * 100)` in floating point
  pub round_percent : ℕ → ℕ → ℕ
  -- the class `[[:space:]]` of the regular expressions of the database
  pub is_regexp_space : ℕ → Bool
