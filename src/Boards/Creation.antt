-- ===== src/Boards/Creation.antt =====
-- What a new board starts with.
use kan_pad.Base.{
  ℕ, ap, ◌≡◌, refl, Bool, true, false, ◌&&◌, nonzero, List, [], ◌∷◌, ◌++◌, map, select, arith, any,
  any-weaken, ◌==◌, ==_iff, ==_refl,
}
use kan_pad.Base.Int.{ℤ, pos}
use kan_pad.Base.Text.{Text, codes}
use kan_pad.Boards.{CreateBoardDto, board_color, find_one, create}
use kan_pad.Columns.Service.{insert_column}
use kan_pad.Store.Action.{ok}
use kan_pad.Store.Entities.{Board, BoardColumn, Db, ViewMode}
use kan_pad.Store.Keyed.{find_one-new}
use kan_pad.Store.Laws.{IsLawful}
use kan_pad.Store.Repository.{Orm, Generated}

abbrev pub columns_of : ℕ → Db → List BoardColumn
columns_of board_id db = select (λ c. BoardColumn.board_id c == board_id) db.columns

abbrev pub name_and_position : BoardColumn → Text × ℤ
name_and_position c = (c.name, c.position)

module _ {A B : Type 0} where
  -- what is left of three rows added to a table that has none of a kind
  select-three :
      (p : A → Bool) (f : A → B) (t : List A) (x y z : A)
      → any p t ≡ false
      → p x ≡ true
      → p y ≡ true
      → p z ≡ true
      → map f (select p (((t ++ x ∷ []) ++ y ∷ []) ++ z ∷ [])) ≡ f x ∷ f y ∷ f z ∷ []
  select-three p f [] x y z h hx hy hz = rw (hx, hy, hz) refl
  select-three p f (a ∷ t) x y z h hx hy hz = ground (arith, select-three p f t x y z)

insert_column-added :
    (o : Orm) (laws : IsLawful o) (name : Text) (p : ℤ) (board_id : ℕ) (db : Db)
    → (c : BoardColumn) × (name_and_position c ≡ (name, p))
      × (c.board_id ≡ board_id)
      × (insert_column o name p board_id db ≡ (ok c, record db { columns = db.columns ++ c ∷ [] }))
insert_column-added o laws name p board_id db =
    let make : Generated → BoardColumn =
      λ g. record { id = g.id; name = name; position = p; board_id = board_id } in
    let (g, inserted, _, _) = laws.new_columns.insert_lem make db.columns in
    (make g, refl, refl, ground (arith, inserted))

module _ (o : Orm) (laws : IsLawful o) (db : Db)
    (rooted : (i : ℕ)
      → any (λ b. Board.id b == i) db.boards ≡ false
      → any (λ c. BoardColumn.board_id c == i) db.columns ≡ false) where
  -- Where no column is left of a board that is gone, `create` succeeds: the new board has an id that
  -- no board had, belongs to the user and is not archived, and its columns are the three that the
  -- program starts with, at the positions 0, 1 and 2.
  pub create-columns :
      (user_id : ℕ) (dto : CreateBoardDto)
      → (board : Board) × (any (λ b. Board.id b == board.id) db.boards ≡ false)
        × (board.user_id ≡ user_id)
        × (board.is_archived ≡ false)
        × (board.name ≡ dto.name)
        × ((create o user_id dto db).0 ≡ ok board)
        × (map name_and_position (columns_of board.id (create o user_id dto db).1)
            ≡ (codes "To Do", pos 0) ∷ (codes "In Progress", pos 1) ∷ (codes "Done", pos 2) ∷ [])
  unfolding create find_one
  create-columns user_id dto =
      let made : Generated → Board = λ g. record {
        id = g.id;
        name = dto.name;
        background_color = board_color dto.background_color;
        user_id = user_id;
        project_id = nonzero dto.project_id;
        is_archived = false;
        view_mode = ViewMode.board;
      } in
      let (g, inserted, fresh, _) = laws.new_boards.insert_lem made db.boards in
      let new : Board = made g in
      let no_columns = rooted g.id fresh in
      let (c, nc, bc, to_do) =
        insert_column-added o laws (codes "To Do") (pos 0) g.id
          (record db { boards = db.boards ++ new ∷ [] }) in
      let (d, nd, bd, in_progress) =
        insert_column-added o laws (codes "In Progress") (pos 1) g.id
          (record db { boards = db.boards ++ new ∷ []; columns = db.columns ++ c ∷ [] }) in
      let (e, ne, be, done) = insert_column-added o laws (codes "Done") (pos 2) g.id (record db {
        boards = db.boards ++ new ∷ [];
        columns = (db.columns ++ c ∷ []) ++ d ∷ [];
      }) in
      let found =
        find_one-new o.boards laws.boards (λ b. Board.id b == g.id && Board.user_id b == user_id)
          new db.boards
          (any-weaken (λ b. Board.id b == g.id) _ db.boards (λ b h. ground arith) fresh)
          (ground (arith, ==_refl g.id, ==_refl user_id)) in
      let run : create o user_id dto db ≡ (
        ok new,
        record db {
          boards = db.boards ++ new ∷ [];
          columns = ((db.columns ++ c ∷ []) ++ d ∷ []) ++ e ∷ [];
        },
      ) =
        ground (arith, inserted, to_do, in_progress, done, found) in
      let three =
        select-three (λ k. BoardColumn.board_id k == g.id) name_and_position db.columns c d e
          no_columns ((==_iff _ _).1 bc) ((==_iff _ _).1 bd) ((==_iff _ _).1 be) in
      (new, fresh, refl, refl, refl, ap (λ r. r.0) run, rw run (rw (nc, nd, ne) at three))
