-- ===== src/Boards.antt =====
-- backend/src/boards/boards.service.ts: `BoardsService`, method by method. The relations `project`
-- and `columns` of a returned board are not repeated in the result.
pub mod Lifecycle
pub mod Creation
pub mod Removal
use kan_pad.Base.{
  ℕ, Bool, true, false, not, ◌&&◌, ◌||◌, List, [], ◌∷◌, Option, none, some, get_or, nonzero, ◌==◌,
  if◌then◌else◌,
}
use kan_pad.Base.Int.{pos}
use kan_pad.Base.Text.{Text, codes, is_empty}
use kan_pad.Columns.Service.{insert_column}
use kan_pad.Store.Action.{
  Action, ok, not_found, forbidden, gets, pure, throw_if, or_throw, modify, ◌>>=◌, ◌>>◌,
}
use kan_pad.Store.Cascade.{cascade_boards}
use kan_pad.Store.Entities.{Project, Board, ViewMode}
use kan_pad.Store.Repository.{Orm}

-- class `CreateBoardDto`; of `project_id`, `null` and `undefined` act alike
pub record CreateBoardDto : Type 0 where
  pub name : Text
  pub background_color : Option Text
  pub project_id : Option ℕ

-- class `UpdateBoardDto`; of `project_id`, `some none` is `null`
pub record UpdateBoardDto : Type 0 where
  pub name : Option Text
  pub background_color : Option Text
  pub project_id : Option (Option ℕ)
  pub view_mode : Option ViewMode

-- `color || '#0079BF'`
unfoldable pub board_color : Option Text → Text
board_color none = codes "#0079BF"
board_color (some color) = if is_empty color then codes "#0079BF" else color

-- `if (projectId) where.project_id = projectId`
unfoldable pub in_project : Option ℕ → Board → Bool
in_project project_id b = elim (nonzero project_id) [
  | none ↦ true
  | some i ↦ elim (Board.project_id b) [ none ↦ false | some j ↦ j == i ]
]

-- the entries of `where` in `findAllByUserId`
unfoldable pub in_list : ℕ → Option ℕ → Bool → Board → Bool
in_list user_id project_id include_archived b =
    b.user_id == user_id && in_project project_id b && (include_archived || not b.is_archived)

module _ (o : Orm) where
  unfoldable pub find_one : ℕ → ℕ → Action Board
  find_one id user_id =
      gets (λ db. o.boards.find_one (λ b. Board.id b == id && Board.user_id b == user_id) db.boards)
      >>= or_throw (not_found "Board not found")

  unfoldable pub find_all_by_user_id : ℕ → Option ℕ → Bool → Action (List Board)
  find_all_by_user_id user_id project_id include_archived =
      gets (λ db. o.boards.find (in_list user_id project_id include_archived) db.boards)

  unfoldable pub find_all_archived_by_user_id : ℕ → Action (List Board)
  find_all_archived_by_user_id user_id =
      gets (λ db. o.boards.find (λ b. Board.user_id b == user_id && Board.is_archived b) db.boards)

  abbrev insert_board : ℕ → CreateBoardDto → Action Board
  insert_board user_id dto db =
      let (board, boards) =
        o.boards.insert
          (λ g. record {
            id = g.id;
            name = dto.name;
            background_color = board_color dto.background_color;
            user_id = user_id;
            project_id = nonzero dto.project_id;
            is_archived = false;
            view_mode = ViewMode.board;
          })
          db.boards in
      (ok board, record db { boards = boards })

  unfoldable pub create : ℕ → CreateBoardDto → Action Board
  create user_id dto = do
    saved ← insert_board user_id dto
    insert_column o (codes "To Do") (pos 0) saved.id
    insert_column o (codes "In Progress") (pos 1) saved.id
    insert_column o (codes "Done") (pos 2) saved.id
    find_one saved.id user_id

  abbrev save_board : Board → Action Board
  save_board b = modify (λ db. record db { boards = o.boards.save b db.boards }) >> pure b

  -- the branch of `update` on `dto.project_id`: the project that the board is to have
  unfoldable pub choose_project : Board → ℕ → Option (Option ℕ) → Action (Option ℕ)
  choose_project board user_id none = pure board.project_id
  choose_project board user_id (some none) = pure none
  choose_project board user_id (some (some i)) = do
    project ←
        gets (λ db.
          o.projects.find_one (λ p. Project.id p == i && Project.user_id p == user_id) db.projects)
        >>= or_throw (forbidden "Project not found or access denied")
    gets (λ _. some (Project.id project))

  unfoldable pub update : ℕ → ℕ → UpdateBoardDto → Action Board
  update id user_id dto = do
    board ← find_one id user_id
    project_id ← choose_project board user_id dto.project_id
    save_board (record board {
      name = get_or dto.name board.name;
      background_color = get_or dto.background_color board.background_color;
      project_id = project_id;
      view_mode = get_or dto.view_mode board.view_mode;
    })

  -- `boardRepository.remove(board)`
  unfoldable pub remove_board : Board → Action (Unit {0})
  remove_board board = modify (λ db.
      cascade_boards (board.id ∷ []) (record db { boards = o.boards.remove board db.boards }))

  unfoldable pub remove : ℕ → ℕ → Action (Unit {0})
  remove id user_id = find_one id user_id >>= remove_board

  unfoldable pub archive : ℕ → ℕ → Action Board
  archive id user_id = do
    board ← find_one id user_id
    if board.is_archived then pure board else save_board (record board { is_archived = true })

  unfoldable pub restore : ℕ → ℕ → Action Board
  restore id user_id = do
    board ← find_one id user_id
    if not board.is_archived then pure board else save_board (record board { is_archived = false })

  unfoldable pub permanent_delete : ℕ → ℕ → Action (Unit {0})
  permanent_delete id user_id = do
    board ← find_one id user_id
    throw_if (forbidden "Board must be archived before permanent deletion") (not board.is_archived)
    remove_board board
