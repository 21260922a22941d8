-- ===== src/Api/Columns.antt =====
-- backend/src/columns/columns.controller.ts.
use kan_pad.Base.{ℕ, [], map}
use kan_pad.Base.Text.{Text, codes}
use kan_pad.Api.{Reply, many, single, nothing, answers, answers_with, answered}
use kan_pad.Api.Content.{ColumnResponse, to_column_response, to_column_with_cards, moved_message}
use kan_pad.Columns.Service.{
  CreateColumnDto, UpdateColumnDto, find_all_by_board_id, create, update, remove, sort_cards,
  move_all_cards,
}
use kan_pad.Store.Action.{Action, gets, ◌>>=◌, ◌>>◌}
use kan_pad.Store.Repository.{Orm, Order}

-- the routes of `ColumnsController`
pub data ColumnsRequest : Type 0 where
  list_columns : ℕ → ColumnsRequest
  create_column : ℕ → CreateColumnDto → ColumnsRequest
  update_column : ℕ → UpdateColumnDto → ColumnsRequest
  delete_column : ℕ → ColumnsRequest
  sort_column : ℕ → Order → ColumnsRequest
  move_all : ℕ → ℕ → ColumnsRequest

-- `data` of the answer to a move is `{movedCount}`
pub data ColumnsAnswer : Type 0 where
  of_columns : Reply ColumnResponse → ColumnsAnswer
  of_move : ℕ → Text → ColumnsAnswer

module _ (o : Orm) where
  unfoldable pub columns_controller : ColumnsRequest → ℕ → Action ColumnsAnswer
  unfolding to_column_with_cards moved_message
  columns_controller (list_columns board_id) user_id = answered of_columns (do
    columns ← find_all_by_board_id o board_id user_id
    answers (many (map to_column_with_cards columns)))
  columns_controller (create_column board_id dto) user_id = answered of_columns (do
    column ← create o board_id user_id dto
    answers_with (codes "Column created") (single (to_column_response column [])))
  columns_controller (update_column id dto) user_id = answered of_columns (do
    column ← update o id user_id dto
    answers_with (codes "Column updated") (single (to_column_response column [])))
  columns_controller (delete_column id) user_id =
      answered of_columns (do remove o id user_id; answers_with (codes "Column deleted") nothing)
  columns_controller (sort_column id order) user_id = answered of_columns (do
    column ← sort_cards o id user_id order
    answers_with (codes "Cards sorted") (single (to_column_with_cards column)))
  columns_controller (move_all id target_column_id) user_id = do
    moved ← move_all_cards o id target_column_id user_id
    gets (λ _. of_move moved.moved_count (moved_message moved.moved_count moved.target_name))
