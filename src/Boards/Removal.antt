-- ===== src/Boards/Removal.antt =====
-- `remove` and `permanentDelete` of a board, on foreign keys.
use kan_pad.Base.{
  ℕ, ◌≡◌, ◌⊎◌, ◌∙◌, refl, ap, ap₂, inl, inr, Bool, not, ◌&&◌, ◌==◌, select, Member, [], ◌∷◌, arith,
  Bool-cases, Option-cases,
}
use kan_pad.Boards.{find_one, remove_board, remove, permanent_delete}
use kan_pad.Store.Action.{HttpError, ok, err, >>=-ok, Result-cases}
use kan_pad.Store.Cascade.{cascade_boards, cascade_columns, cascade_cards, cascade_checklists}
use kan_pad.Store.Distinct.{same_id}
use kan_pad.Store.Entities.{Board, BoardColumn, Db}
use kan_pad.Store.Laws.{IsLawful}
use kan_pad.Store.Repository.{Orm}
use kan_pad.Store.Rooted.{IsRooted, start, cascade_boards-IsRooted}

module _ (o : Orm) (laws : IsLawful o) (db : Db) (rooted : IsRooted db) where
  remove_board-IsRooted : (board : Board) → IsRooted (remove_board o board db).1
  unfolding remove_board
  remove_board-IsRooted board =
      let gone = start BoardColumn.board_id Board.id board db.columns db.boards rooted.columns in
      cascade_boards-IsRooted (board.id ∷ []) _ (rw (laws.boards.remove_lem board db.boards) gone)
        rooted.cards rooted.checklists rooted.card_labels rooted.checklist_items rooted.labels

  find_one-reads : (id user_id : ℕ) → (find_one o id user_id db).1 ≡ db
  unfolding find_one
  find_one-reads id user_id = ground arith

  find_one-row :
      (id user_id : ℕ) (board : Board)
      → (find_one o id user_id db).0 ≡ ok board
      → Member board db.boards × (board.id ≡ id) × (board.user_id ≡ user_id)
  unfolding find_one
  find_one-row id user_id board h =
      let own : Board → Bool = λ b. b.id == id && b.user_id == user_id in
      elim (Option-cases (o.boards.find_one own db.boards)) [
        | inl e ↦ absurd (ground (arith, h, e))
        | inr (b, e) ↦
            let (m, test) = laws.boards.find_one-sound own db.boards b e in
            let same : b ≡ board = ground (arith, h, e) in
            (rw (← same) m, ground (arith, test, same), ground (arith, test, same))
      ]

  remove_board-ok : (board : Board) → (remove_board o board db).0 ≡ ok tt
  unfolding remove_board
  remove_board-ok board = refl

  remove_board-boards :
      (board : Board)
      → Db.boards (remove_board o board db).1
        ≡ select (λ b. not (same_id Board.id board b)) db.boards
  unfolding remove_board cascade_boards cascade_columns cascade_cards cascade_checklists
  remove_board-boards board = laws.boards.remove_lem board db.boards

  -- What `remove` does to the boards: it throws and leaves the tables, or takes away the user's.
  abbrev pub IsTaken : ℕ → ℕ → Type 0
  IsTaken id user_id =
      ((e : HttpError) × (remove o id user_id db ≡ (err e, db)))
      ⊎ ((board : Board) × Member board db.boards
          × (board.id ≡ id)
          × (board.user_id ≡ user_id)
          × ((remove o id user_id db).0 ≡ ok tt)
          × (Db.boards (remove o id user_id db).1
              ≡ select (λ b. not (same_id Board.id board b)) db.boards))

  remove-IsTaken : (id user_id : ℕ) → IsTaken id user_id
  unfolding remove
  remove-IsTaken id user_id =
      let reads = find_one-reads id user_id in
      elim (Result-cases (find_one o id user_id db).0) [
        | inl (e, h) ↦ inl (e, ground (arith, h, reads))
        | inr (board, h) ↦
            let found : find_one o id user_id db ≡ (ok board, db) = ap₂ (λ x y. (x, y)) h reads in
            let run : remove o id user_id db ≡ remove_board o board db =
              >>=-ok (find_one o id user_id) (remove_board o) db found in
            let (m, i, u) = find_one-row id user_id board h in
            inr (
              board,
              m,
              i,
              u,
              ap (λ r. r.0) run ∙ remove_board-ok board,
              ap (λ r. Db.boards r.1) run ∙ remove_board-boards board,
            )
      ]

  remove_both-IsRooted :
      (id user_id : ℕ)
      → IsRooted (remove o id user_id db).1 × IsRooted (permanent_delete o id user_id db).1
  unfolding remove permanent_delete
  remove_both-IsRooted id user_id =
      let reads = find_one-reads id user_id in
      elim (Result-cases (find_one o id user_id db).0) [
        | inl (e, h) ↦
            let a : (remove o id user_id db).1 ≡ db = ground (arith, h, reads) in
            let b : (permanent_delete o id user_id db).1 ≡ db = ground (arith, h, reads) in
            (rw a rooted, rw b rooted)
        | inr (board, h) ↦
            let kept = remove_board-IsRooted board in
            let a : (remove o id user_id db).1 ≡ (remove_board o board db).1 =
              ground (arith, h, reads) in
            (
              rw a kept,
              elim (Bool-cases board.is_archived) [
                | inl p ↦
                    let b : (permanent_delete o id user_id db).1 ≡ (remove_board o board db).1 =
                      ground (arith, h, reads, p) in
                    rw b kept
                | inr p ↦
                    let b : (permanent_delete o id user_id db).1 ≡ db =
                      ground (arith, h, reads, p) in
                    rw b rooted
              ],
            )
      ]

  -- Where each column has its board, each card its column, each checklist its card, each item its
  -- checklist, and each assigned label its card and its label, they all still have them after removing
  -- a board or deleting an archived one, whatever the methods answer. Removing throws and changes
  -- nothing, or succeeds and takes the board of the user with that id, and no other, out of the boards.
  pub remove-IsRooted :
      (id user_id : ℕ)
      → IsRooted (remove o id user_id db).1
        × IsRooted (permanent_delete o id user_id db).1
        × IsTaken id user_id
  remove-IsRooted id user_id =
      let (removed, deleted) = remove_both-IsRooted id user_id in
      (removed, deleted, remove-IsTaken id user_id)
