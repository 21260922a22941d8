-- ===== src/Api/Foreign.antt =====
-- What the answers show of the projects of other users.
use kan_pad.Base.{
  ℕ, ◌≡◌, ◌≢◌, refl, Bool, false, ◌&&◌, Member, some, any, any-weaken, nonzero, arith, ◌==◌,
  ==_refl,
}
use kan_pad.Api.{single}
use kan_pad.Api.Boards.{boards_controller, create_board}
use kan_pad.Api.Content.{BoardResponse, project_ref, to_board_response, column_refs}
use kan_pad.Base.Text.{codes}
use kan_pad.Boards.{CreateBoardDto, board_color, find_one, create}
use kan_pad.Store.Action.{ok}
use kan_pad.Store.Entities.{Board, Project, Db, ViewMode}
use kan_pad.Store.Keyed.{IsKeyed, find_one-new, find_one-Member}
use kan_pad.Store.Laws.{IsLawful}
use kan_pad.Store.Repository.{Orm, Generated}

module _ (o : Orm) (laws : IsLawful o) (db : Db) where
  -- a new board has the project that was asked for, and the projects stay
  created :
      (user_id : ℕ) (dto : CreateBoardDto)
      → (board : Board) × ((create o user_id dto db).0 ≡ ok board)
        × (board.project_id ≡ nonzero dto.project_id)
        × (Db.projects (create o user_id dto db).1 ≡ db.projects)
  unfolding create find_one
  created user_id dto =
      let made : Generated → Board = λ g. record {
        id = g.id;
        name = dto.name;
        background_color = board_color dto.background_color;
        user_id = user_id;
        project_id = nonzero dto.project_id;
        is_archived = false;
        view_mode = ViewMode.board;
      } in
      let (g, inserted, fresh, _) = laws.new_boards.insert_lem made db.boards in
      let own : Board → Bool = λ b. Board.id b == g.id && Board.user_id b == user_id in
      let unused : any own db.boards ≡ false =
        any-weaken (λ b. Board.id b == g.id) own db.boards (λ b h. ground (arith, h)) fresh in
      let found =
        find_one-new o.boards laws.boards own (made g) db.boards unused
          (ground (arith, ==_refl g.id, ==_refl user_id)) in
      (made g, ground (arith, inserted, found), refl, ground (arith, inserted))

  -- Whoever creates a board in a project, by its id, is told the name of the project, whose ever it
  -- is.
  pub create_board-project :
      IsKeyed db
      → (user_id : ℕ) (dto : CreateBoardDto) (p : Project) → Member p db.projects
      → p.id ≢ 0
      → dto.project_id ≡ some p.id
      → (response : BoardResponse) × ((boards_controller o (create_board dto) user_id db).0
          ≡ ok (record {
            content = single response;
            message = some (codes "Board created successfully");
          }))
        × (response.project ≡ some (record { id = p.id; name = p.name }))
  unfolding boards_controller to_board_response project_ref
  create_board-project keyed user_id dto p m n asked =
      let (board, done, named, kept) = created user_id dto in
      let there =
        find_one-Member Project.id o.projects laws.projects p db.projects keyed.projects m in
      let after = (create o user_id dto db).1 in
      let chosen : board.project_id ≡ some p.id = ground (arith, named, asked, n) in
      let shown : project_ref o after board ≡ some (record { id = p.id; name = p.name }) =
        rw (project_ref, chosen, kept, there) refl in
      (
        record (to_board_response o after board) { columns = some (column_refs o after board) },
        ground (arith, done),
        shown,
      )
