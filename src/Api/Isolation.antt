-- ===== src/Api/Isolation.antt =====
-- What the requests of a user leave of the boards of the others.
use kan_pad.Base.{
  ℕ, ◌≡◌, ◌≢◌, refl, sym, true, false, not, arith, inl, inr, List, [], ◌∷◌, ◌++◌, Member, Option,
  none, some, Bool-cases, select-Member, ◌⊎◌, get_or, nonzero,
}
use kan_pad.Api.Boards.{
  BoardsRequest, boards_controller, project_number, is_true, list_boards, list_archived,
  create_board, show_board, update_board, delete_board, archive_board, restore_board,
  delete_permanently,
}
use kan_pad.Api.Reading.{IsReading, boards_in-IsReading, find_board-IsReading}
use kan_pad.Boards.{
  CreateBoardDto, board_color, UpdateBoardDto, find_one, find_all_archived_by_user_id, create,
  choose_project, update, remove_board, remove, archive, restore, permanent_delete,
}
use kan_pad.Boards.Lifecycle.{find_one-owned}
use kan_pad.Store.Action.{Action, ok, err, ◌>>=◌, Result-cases, HttpError}
use kan_pad.Store.Cascade.{cascade_boards, cascade_columns, cascade_cards, cascade_checklists}
use kan_pad.Store.Distinct.{Distinct-unique, same_id, any-same}
use kan_pad.Store.Entities.{Board, Db, ViewMode}
use kan_pad.Store.Keyed.{IsKeyed}
use kan_pad.Store.Laws.{IsLawful}
use kan_pad.Store.Repository.{Orm, Generated}
use kan_pad.Store.Repository.Documented.{replace}

module _ {Row : Type 0} (id : Row → ℕ) where
  -- A row stays where a row with another key is replaced.
  Member-replace :
      (x y : Row) (t : List Row) → id x ≢ id y → Member y t → Member y (replace (same_id id) x t)
  Member-replace x y [] n m = absurd m
  Member-replace x y (z ∷ t) n (inl p) = inl (ground (arith, p))
  Member-replace x y (z ∷ t) n (inr m) = inr (Member-replace x y t n m)

  differs : (x y : Row) → id x ≢ id y → not (same_id id x y) ≡ true
  differs x y n = ground arith

module _ {A : Type 0} where
  Member-append : (x : A) (xs ys : List A) → Member x xs → Member x (xs ++ ys)
  Member-append x [] ys m = absurd m
  Member-append x (y ∷ xs) ys (inl p) = inl p
  Member-append x (y ∷ xs) ys (inr m) = inr (Member-append x xs ys m)

module _ (o : Orm) (laws : IsLawful o) (db : Db) (keyed : IsKeyed db) (other : Board)
    (here : Member other db.boards) where
  abbrev Stays : {A : Type 0} → Action A → Type 0
  Stays m = Member other (Db.boards (m db).1)

  -- the board that a user finds is not that of another user
  find_one-differs :
      (id user_id : ℕ) (board : Board)
      → other.user_id ≢ user_id
      → (find_one o id user_id db).0 ≡ ok board
      → Member board db.boards × (board.id ≢ other.id)
  find_one-differs id user_id board n h =
      let (m, _, u) = find_one-owned o laws db keyed id user_id board h in
      (
        m,
        λ e. n (rw (Distinct-unique Board.id other board db.boards keyed.boards here m (sym e)) u),
      )

  saved_stays :
      (board changed : Board)
      → Member board db.boards
      → board.id ≢ other.id
      → changed.id ≡ board.id
      → Member other (o.boards.save changed db.boards)
  saved_stays board changed m n e =
      rw (laws.boards.save_present changed db.boards (rw e (any-same Board.id board db.boards m)))
        (Member-replace Board.id changed other db.boards (λ h. n (ground (arith, e, h))) here)

  remove_board-Stays : (board : Board) → board.id ≢ other.id → Stays (remove_board o board)
  unfolding remove_board cascade_boards cascade_columns cascade_cards cascade_checklists
  remove_board-Stays board n = rw (laws.boards.remove_lem board db.boards) (
      select-Member (λ y. not (same_id Board.id board y)) other db.boards here
        (differs Board.id board other n))

  -- what a method of a user finds: nothing, or a board that is not that of the other
  find_one-cases :
      (id user_id : ℕ)
      → other.user_id ≢ user_id
      → ((e : HttpError) × ((find_one o id user_id db).0 ≡ err e))
        ⊎ ((board : Board) × ((find_one o id user_id db).0 ≡ ok board)
            × Member board db.boards
            × (board.id ≢ other.id))
  find_one-cases id user_id n = elim (Result-cases (find_one o id user_id db).0) [
    | inl (e, r) ↦ inl (e, r)
    | inr (board, r) ↦ let (m, d) = find_one-differs id user_id board n r in inr (board, r, m, d)
  ]

  archive-Stays : (id user_id : ℕ) → other.user_id ≢ user_id → Stays (archive o id user_id)
  unfolding archive
  archive-Stays id user_id n = elim (find_one-cases id user_id n) [
    | inl (e, r) ↦ rw (◌>>=◌, r, find_board-IsReading o id user_id db) here
    | inr (board, r, m, d) ↦
        let saved = saved_stays board (record board { is_archived = true }) m d refl in
        elim (Bool-cases (Board.is_archived board)) [
          | inl p ↦ rw (◌>>=◌, r, find_board-IsReading o id user_id db, p) here
          | inr p ↦ rw (◌>>=◌, r, find_board-IsReading o id user_id db, p) saved
        ]
  ]

  restore-Stays : (id user_id : ℕ) → other.user_id ≢ user_id → Stays (restore o id user_id)
  unfolding restore
  restore-Stays id user_id n = elim (find_one-cases id user_id n) [
    | inl (e, r) ↦ rw (◌>>=◌, r, find_board-IsReading o id user_id db) here
    | inr (board, r, m, d) ↦
        let saved = saved_stays board (record board { is_archived = false }) m d refl in
        elim (Bool-cases (Board.is_archived board)) [
          | inl p ↦ rw (◌>>=◌, r, find_board-IsReading o id user_id db, p) saved
          | inr p ↦ rw (◌>>=◌, r, find_board-IsReading o id user_id db, p) here
        ]
  ]

  remove-Stays : (id user_id : ℕ) → other.user_id ≢ user_id → Stays (remove o id user_id)
  unfolding remove
  remove-Stays id user_id n = elim (find_one-cases id user_id n) [
    | inl (e, r) ↦ rw (◌>>=◌, r, find_board-IsReading o id user_id db) here
    | inr (board, r, m, d) ↦
        rw (◌>>=◌, r, find_board-IsReading o id user_id db) (remove_board-Stays board d)
  ]

  permanent_delete-Stays :
      (id user_id : ℕ) → other.user_id ≢ user_id → Stays (permanent_delete o id user_id)
  unfolding permanent_delete
  permanent_delete-Stays id user_id n =
      let reads = find_board-IsReading o id user_id db in
      elim (find_one-cases id user_id n) [
        | inl (e, r) ↦ rw (◌>>=◌, r, reads) here
        | inr (board, r, m, d) ↦ elim (Bool-cases (Board.is_archived board)) [
          | inl p ↦
              let gone : (permanent_delete o id user_id db).1 ≡ (remove_board o board db).1 =
                ground (arith, r, reads, p) in
              rw gone (remove_board-Stays board d)
          | inr p ↦
              let kept : (permanent_delete o id user_id db).1 ≡ db = ground (arith, r, reads, p) in
              rw kept here
        ]
      ]

  choose_project-IsReading :
      (board : Board) (user_id : ℕ) (project : Option (Option ℕ))
      → IsReading (choose_project o board user_id project)
  unfolding choose_project
  choose_project-IsReading board user_id none db' = refl
  choose_project-IsReading board user_id (some none) db' = refl
  choose_project-IsReading board user_id (some (some i)) db' = ground arith

  update-Stays :
      (id user_id : ℕ) (dto : UpdateBoardDto)
      → other.user_id ≢ user_id
      → Stays (update o id user_id dto)
  unfolding update
  update-Stays id user_id dto n =
      let reads = find_board-IsReading o id user_id db in
      elim (find_one-cases id user_id n) [
        | inl (e, r) ↦ rw (◌>>=◌, r, reads) here
        | inr (board, r, m, d) ↦
            let chosen = choose_project-IsReading board user_id dto.project_id db in
            elim (Result-cases (choose_project o board user_id dto.project_id db).0) [
              | inl (e, q) ↦
                  let kept : (update o id user_id dto db).1 ≡ db =
                    ground (arith, r, reads, q, chosen) in
                  rw kept here
              | inr (project_id, q) ↦
                  let changed : Board = record board {
                    name = get_or dto.name board.name;
                    background_color = get_or dto.background_color board.background_color;
                    project_id = project_id;
                    view_mode = get_or dto.view_mode board.view_mode;
                  } in
                  let saved : (update o id user_id dto db).1
                      ≡ record db { boards = o.boards.save changed db.boards } =
                    ground (arith, r, reads, q, chosen) in
                  rw saved (saved_stays board changed m d refl)
            ]
      ]

  create-Stays : (user_id : ℕ) (dto : CreateBoardDto) → Stays (create o user_id dto)
  unfolding create find_one
  create-Stays user_id dto =
      let made : Generated → Board = λ g. record {
        id = g.id;
        name = dto.name;
        background_color = board_color dto.background_color;
        user_id = user_id;
        project_id = nonzero dto.project_id;
        is_archived = false;
        view_mode = ViewMode.board;
      } in
      let (g, inserted, _, _) = laws.new_boards.insert_lem made db.boards in
      let added : Db.boards (create o user_id dto db).1 ≡ db.boards ++ made g ∷ [] =
        ground (arith, inserted) in
      rw added (Member-append other db.boards (made g ∷ []) here)

  same_boards : (x y : Db) → Member other y.boards → x ≡ y → Member other x.boards
  same_boards x y m e = rw e m

  abbrev after : BoardsRequest → ℕ → Db
  after r user_id = (boards_controller o r user_id db).1

  -- A request on boards leaves every board of another user in the table, unchanged.
  pub boards_controller-others :
      (r : BoardsRequest) (user_id : ℕ)
      → other.user_id ≢ user_id
      → Member other (Db.boards (boards_controller o r user_id db).1)
  unfolding boards_controller find_all_archived_by_user_id
  boards_controller-others (list_boards project_id archived) user_id n =
      let reads = boards_in-IsReading o user_id (project_number project_id) (is_true archived) db in
      same_boards (after (list_boards project_id archived) user_id) db here (ground (arith, reads))
  boards_controller-others list_archived user_id n = here
  boards_controller-others (create_board dto) user_id n =
      same_boards (after (create_board dto) user_id) (create o user_id dto db).1
        (create-Stays user_id dto) (ground arith)
  boards_controller-others (show_board id) user_id n =
      same_boards (after (show_board id) user_id) db here
        (ground (arith, find_board-IsReading o id user_id db))
  boards_controller-others (update_board id dto) user_id n =
      same_boards (after (update_board id dto) user_id) (update o id user_id dto db).1
        (update-Stays id user_id dto n) (ground arith)
  boards_controller-others (delete_board id) user_id n =
      same_boards (after (delete_board id) user_id) (remove o id user_id db).1
        (remove-Stays id user_id n) (ground arith)
  boards_controller-others (archive_board id) user_id n =
      same_boards (after (archive_board id) user_id) (archive o id user_id db).1
        (archive-Stays id user_id n) (ground arith)
  boards_controller-others (restore_board id) user_id n =
      same_boards (after (restore_board id) user_id) (restore o id user_id db).1
        (restore-Stays id user_id n) (ground arith)
  boards_controller-others (delete_permanently id) user_id n =
      same_boards (after (delete_permanently id) user_id) (permanent_delete o id user_id db).1
        (permanent_delete-Stays id user_id n) (ground arith)
