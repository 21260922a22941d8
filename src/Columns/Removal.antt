-- ===== src/Columns/Removal.antt =====
-- `remove` of a column, on foreign keys.
use kan_pad.Base.{ℕ, ◌≡◌, inl, inr, not, [], ◌∷◌, arith}
use kan_pad.Columns.Service.{find_one_by_id, remove}
use kan_pad.Store.Action.{Result-cases}
use kan_pad.Store.Cascade.{cascade_columns}
use kan_pad.Store.Distinct.{same_id}
use kan_pad.Store.Entities.{Board, BoardColumn, Card, Db}
use kan_pad.Store.Laws.{IsLawful}
use kan_pad.Store.Repository.{Orm}
use kan_pad.Store.Rooted.{IsRooted, start, others, cascade_columns-IsRooted}

module _ (o : Orm) (laws : IsLawful o) (db : Db) (rooted : IsRooted db) where
  remove_column-IsRooted :
      (column : BoardColumn)
      → IsRooted (
          cascade_columns
            (column.id ∷ [])
            (record db { columns = o.columns.remove column db.columns }))
  remove_column-IsRooted column =
      let gone = start Card.column_id BoardColumn.id column db.cards db.columns rooted.cards in
      cascade_columns-IsRooted (column.id ∷ []) _
        (rw (laws.columns.remove_lem column db.columns) (
          others BoardColumn.board_id Board.id db.columns db.boards
            (λ c. not (same_id BoardColumn.id column c)) rooted.columns))
        (rw (laws.columns.remove_lem column db.columns) gone) rooted.checklists rooted.card_labels
        rooted.checklist_items rooted.labels

  find_one_by_id-reads : (id user_id : ℕ) → (find_one_by_id o id user_id db).1 ≡ db
  unfolding find_one_by_id
  find_one_by_id-reads id user_id = ground arith

  -- Where every row has the rows that its foreign keys name, they all still have them after removing
  -- a column, whatever the method answers.
  pub remove_column_keeps : (id user_id : ℕ) → IsRooted (remove o id user_id db).1
  unfolding remove
  remove_column_keeps id user_id =
      let reads = find_one_by_id-reads id user_id in
      elim (Result-cases (find_one_by_id o id user_id db).0) [
        | inl (e, h) ↦
            let a : (remove o id user_id db).1 ≡ db = ground (arith, h, reads) in rw a rooted
        | inr (column, h) ↦
            let a : (remove o id user_id db).1
                ≡ cascade_columns (column.id ∷ [])
                    (record db { columns = o.columns.remove column db.columns }) =
              ground (arith, h, reads) in
            rw a (remove_column-IsRooted column)
      ]
