-- ===== src/Columns/Service.antt =====
-- backend/src/columns/columns.service.ts: the methods of `ColumnsService`.
use kan_pad.Base.{
  ℕ, ◌+◌, not, ◌&&◌, List, [], ◌∷◌, map, Option, none, some, length, get_or, ◌==◌, if◌then◌else◌,
}
use kan_pad.Base.Int.{ℤ, pos, negsuc, ◌+ℤ◌}
use kan_pad.Base.Text.{Text, codes, is_empty}
use kan_pad.Store.Action.{
  Action, ok, not_found, forbidden, bad_request, gets, pure, throw_if, or_throw, modify, for_each,
  transaction, ◌>>=◌, ◌>>◌,
}
use kan_pad.Store.Cascade.{cascade_columns}
use kan_pad.Store.Entities.{Board, BoardColumn, Card}
use kan_pad.Store.Relations.{column_at, board_of}
use kan_pad.Store.Repository.{Orm, Order, asc}
use kan_pad.Columns.View.{
  ColumnView, find_summary_cards_by_column_ids, with_cards, enrich_with_progress,
  set_column_progress,
}

pub record CreateColumnDto : Type 0 where
  pub name : Option Text

pub record UpdateColumnDto : Type 0 where
  pub name : Option Text

pub record Moved : Type 0 where
  pub moved_count : ℕ
  pub target_name : Text

-- the loop of `moveAllCards`: `card.position = ++maxPosition`
unfoldable pub renumber : ℕ → ℤ → List Card → List Card
renumber column_id last [] = []
renumber column_id last (c ∷ cs) =
    let next = last +ℤ pos 1 in
    record c { column_id = column_id; position = next } ∷ renumber column_id next cs

-- the loop of `sortCards`: `cards[i].position = i`
unfoldable pub number_from : ℕ → List Card → List Card
number_from i [] = []
number_from i (c ∷ cs) = record c { position = pos i } ∷ number_from (i + 1) cs

module _ (o : Orm) where
  unfoldable pub find_one_by_id : ℕ → ℕ → Action BoardColumn
  find_one_by_id id user_id = do
    column ← column_at o id >>= or_throw (not_found "Column not found")
    board ← board_of o column
    throw_if (forbidden "Access denied") (not (Board.user_id board == user_id))
    pure column

  -- `boardRepository.findOne({where: { id: boardId, user_id: userId} })`
  abbrev pub own_board : ℕ → ℕ → Action Board
  own_board board_id user_id =
      gets (λ db.
        o.boards.find_one (λ b. Board.id b == board_id && Board.user_id b == user_id) db.boards)
      >>= or_throw (not_found "Board not found")

  unfoldable pub find_all_by_board_id : ℕ → ℕ → Action (List ColumnView)
  find_all_by_board_id board_id user_id = do
    own_board board_id user_id
    columns ← gets (λ db.
        o.columns.find_ordered asc BoardColumn.position (λ c. BoardColumn.board_id c == board_id)
          db.columns)
    gets (λ db. enrich_with_progress o db (
        map (with_cards o (find_summary_cards_by_column_ids o db (map BoardColumn.id columns)))
          columns))

  -- `name || 'New Column'`
  abbrev pub column_name : Option Text → Text
  column_name none = codes "New Column"
  column_name (some name) = if is_empty name then codes "New Column" else name

  abbrev pub insert_column : Text → ℤ → ℕ → Action BoardColumn
  insert_column name position board_id db =
      let (column, columns) =
        o.columns.insert
          (λ g. record { id = g.id; name = name; position = position; board_id = board_id })
          db.columns in
      (ok column, record db { columns = columns })

  unfoldable pub create : ℕ → ℕ → CreateColumnDto → Action BoardColumn
  create board_id user_id dto = do
    own_board board_id user_id
    last ← gets (λ db.
        o.columns.max BoardColumn.position (λ c. BoardColumn.board_id c == board_id) db.columns)
    insert_column (column_name dto.name) (get_or last (negsuc 0) +ℤ pos 1) board_id

  unfoldable pub update : ℕ → ℕ → UpdateColumnDto → Action BoardColumn
  update id user_id dto = do
    column ← find_one_by_id id user_id
    let changed = record column { name = get_or dto.name column.name }
    modify (λ db. record db { columns = o.columns.save changed db.columns })
    pure changed

  unfoldable pub remove : ℕ → ℕ → Action (Unit {0})
  remove id user_id = do
    column ← find_one_by_id id user_id
    modify (λ db.
        cascade_columns (column.id ∷ [])
          (record db { columns = o.columns.remove column db.columns }))

  -- `save(cards)`
  unfoldable pub save_cards : List Card → Action (Unit {0})
  save_cards cards =
      for_each cards (λ c. modify (λ db. record db { cards = o.cards.save c db.cards }))

  unfoldable pub sort_cards : ℕ → ℕ → Order → Action ColumnView
  sort_cards id user_id order = do
    find_one_by_id id user_id
    cards ← gets (λ db.
        o.cards.find_ordered order (λ c. pos (Card.created_at c)) (λ c. Card.column_id c == id)
          db.cards)
    save_cards (number_from 0 cards)
    column ← column_at o id >>= or_throw (not_found "Column not found")
    gets (λ db.
        set_column_progress o db
          (ColumnView.cards (with_cards o (find_summary_cards_by_column_ids o db (id ∷ [])) column))
          (with_cards o (find_summary_cards_by_column_ids o db (id ∷ [])) column))

  -- the transaction of `moveAllCards`
  unfoldable pub move_cards : ℕ → List Card → Action (Unit {0})
  move_cards target_id cards = do
    last ← gets (λ db. o.cards.max Card.position (λ c. Card.column_id c == target_id) db.cards)
    save_cards (renumber target_id (get_or last (negsuc 0)) cards)

  unfoldable pub move_all_cards : ℕ → ℕ → ℕ → Action Moved
  move_all_cards source_id target_id user_id = do
    source ← find_one_by_id source_id user_id
    target ← find_one_by_id target_id user_id
    throw_if (bad_request "Cannot move cards between different boards")
        (not (source.board_id == target.board_id))
    throw_if (bad_request "Cards already in this column") (source_id == target_id)
    cards ← gets (λ db. o.cards.find (λ c. Card.column_id c == source_id) db.cards)
    throw_if (bad_request "No cards to move") (length cards == 0)
    transaction o (move_cards target_id cards)
    gets (λ _. record { moved_count = length cards; target_name = target.name })
