-- ===== src/Api/Boards.antt =====
-- backend/src/boards/boards.controller.ts.
use kan_pad.Base.{
  ℕ, zero, suc, ◌+◌, ◌-◌, ◌*◌, Bool, true, false, ◌&&◌, List, [], ◌∷◌, map, Option, none, some, leb,
  ◌==◌, if◌then◌else◌,
}
use kan_pad.Base.Int.{ℤ, pos, negsuc}
use kan_pad.Base.Text.{Text, codes, text_eq, is_empty, trim_start}
use kan_pad.Api.{Reply, many, single, nothing, answers, answers_with}
use kan_pad.Api.Content.{BoardResponse, to_board_response, column_refs}
use kan_pad.Boards.{
  CreateBoardDto, UpdateBoardDto, find_one, find_all_by_user_id, find_all_archived_by_user_id,
  create, update, remove, archive, restore, permanent_delete,
}
use kan_pad.Store.Action.{Action, gets, ◌>>=◌, ◌>>◌}
use kan_pad.Store.Entities.{Board}
use kan_pad.Store.Repository.{Orm}

-- the routes of the controller; the list has the query parameters `projectId` and `archived`
pub data BoardsRequest : Type 0 where
  list_boards : Option Text → Option Text → BoardsRequest
  list_archived : BoardsRequest
  create_board : CreateBoardDto → BoardsRequest
  show_board : ℕ → BoardsRequest
  update_board : ℕ → UpdateBoardDto → BoardsRequest
  delete_board archive_board restore_board delete_permanently : ℕ → BoardsRequest

-- the digits at the start of a text, and whether there is one
abbrev pub is_digit : ℕ → Bool
is_digit c = leb 48 c && leb c 57

unfoldable pub parse_digits : Text → ℕ → Bool → Option ℕ
parse_digits [] n any = if any then some n else none
parse_digits (c ∷ s) n any =
    let rest = parse_digits s (10 * n + (c - 48)) true in
    if is_digit c then rest else if any then some n else none

abbrev pub negated : Option ℕ → Option ℤ
negated none = none
negated (some zero) = some (pos 0)
negated (some (suc n)) = some (negsuc n)

abbrev pub positive : Option ℕ → Option ℤ
positive none = none
positive (some n) = some (pos n)

abbrev pub parse_signed : Text → Option ℤ
parse_signed [] = none
parse_signed (c ∷ s) =
    if c == 45
    then negated (parse_digits s 0 false)
    else if c == 43
    then positive (parse_digits s 0 false)
    else positive (parse_digits (c ∷ s) 0 false)

-- `parseInt(text, 10)`; `none` is NaN
unfoldable pub parse_int : Text → Option ℤ
unfolding parse_digits trim_start
parse_int text = parse_signed (trim_start text)

-- `projectId ? parseInt(projectId, 10) : undefined`
abbrev pub project_number : Option Text → Option ℤ
project_number none = none
project_number (some text) = if is_empty text then none else parse_int text

abbrev pub is_true : Option Text → Bool
is_true none = false
is_true (some text) = text_eq text (codes "true")

module _ (o : Orm) where
  -- the boards of a project; NaN is falsy and admits all, and no project has a negative id
  abbrev pub boards_in : ℕ → Option ℤ → Bool → Action (List Board)
  boards_in user_id none archived = find_all_by_user_id o user_id none archived
  boards_in user_id (some (pos n)) archived = find_all_by_user_id o user_id (some n) archived
  boards_in user_id (some (negsuc n)) archived = gets (λ db. o.boards.find (λ b. false) db.boards)

  abbrev pub respond : Board → Action BoardResponse
  respond board = gets (λ db. to_board_response o db board)

  abbrev pub respond_with_columns : Board → Action BoardResponse
  respond_with_columns board =
      gets (λ db. record (to_board_response o db board) { columns = some (column_refs o db board) })

  -- the handlers of `BoardsController`; `total` is the length of the list
  unfoldable pub boards_controller : BoardsRequest → ℕ → Action (Reply BoardResponse)
  unfolding parse_int to_board_response column_refs
  boards_controller (list_boards project_id archived) user_id = do
    boards ← boards_in user_id (project_number project_id) (is_true archived)
    responses ← gets (λ db. map (to_board_response o db) boards)
    answers (many responses)
  boards_controller list_archived user_id = do
    boards ← find_all_archived_by_user_id o user_id
    responses ← gets (λ db. map (to_board_response o db) boards)
    answers (many responses)
  boards_controller (create_board dto) user_id = do
    board ← create o user_id dto
    response ← respond_with_columns board
    answers_with (codes "Board created successfully") (single response)
  boards_controller (show_board id) user_id = do
    board ← find_one o id user_id
    response ← respond_with_columns board
    answers (single response)
  boards_controller (update_board id dto) user_id = do
    board ← update o id user_id dto
    response ← respond board
    answers_with (codes "Board updated") (single response)
  boards_controller (delete_board id) user_id = do
    remove o id user_id
    answers_with (codes "Board deleted") nothing
  boards_controller (archive_board id) user_id = do
    board ← archive o id user_id
    response ← respond board
    answers_with (codes "Board archived") (single response)
  boards_controller (restore_board id) user_id = do
    board ← restore o id user_id
    response ← respond board
    answers_with (codes "Board restored") (single response)
  boards_controller (delete_permanently id) user_id = do
    permanent_delete o id user_id
    answers_with (codes "Board permanently deleted") nothing
