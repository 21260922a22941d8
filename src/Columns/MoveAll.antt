-- ===== src/Columns/MoveAll.antt =====
-- `moveAllCards` as a whole: its checks, its result, and the order that it leaves.
use kan_pad.Base.{ℕ, ◌≡◌, ◌≢◌, List, arith, length, length-Permᴰ, select, ◌==◌}
use kan_pad.Cards.Ownership.{OwnsColumn}
use kan_pad.Columns.Moves.{IsMoved, after, found, after-IsMoved, move_cards-latest}
use kan_pad.Columns.Service.{find_one_by_id, move_cards, move_all_cards}
use kan_pad.Store.Action.{ok, transaction-ok}
use kan_pad.Store.Entities.{Board, BoardColumn, Card, Db}
use kan_pad.Store.Keyed.{IsKeyed, find_one-Member}
use kan_pad.Store.Laws.{IsLawful}
use kan_pad.Store.Repository.{Orm}

module _ (o : Orm) (laws : IsLawful o) (db : Db) (keyed : IsKeyed db) where
  pub find_one_by_id-owned :
      (user_id : ℕ) (column : BoardColumn)
      → OwnsColumn db user_id column
      → find_one_by_id o column.id user_id db ≡ (ok column, db)
  unfolding find_one_by_id
  find_one_by_id-owned user_id column h =
      let c =
        find_one-Member BoardColumn.id o.columns laws.columns column db.columns keyed.columns
          h.column_in in
      let b =
        find_one-Member Board.id o.boards laws.boards h.board db.boards keyed.boards h.board_in in
      ground (arith, c, b, h.board_is, h.owner_is)

  -- Between two columns of one board of the user, the first of them not empty, `moveAllCards`
  -- succeeds: it reports the number of the cards and the name of the target, and changes the cards
  -- alone, as IsMoved says.
  pub move_all_cards-IsMoved :
      (user_id : ℕ) (source target : BoardColumn)
      → OwnsColumn db user_id source
      → OwnsColumn db user_id target
      → source.board_id ≡ target.board_id
      → source.id ≢ target.id
      → length (select (λ c. Card.column_id c == source.id) db.cards) ≢ 0
      → (cards : List Card) × IsMoved source.id target.id db.cards cards
        × (move_all_cards o source.id target.id user_id db ≡ (
          ok (record {
            moved_count = length (select (λ c. Card.column_id c == source.id) db.cards);
            target_name = target.name;
          }),
          record db { cards = cards },
        ))
  unfolding move_all_cards
  move_all_cards-IsMoved user_id source target hs ht board apart some_cards =
      let a = find_one_by_id-owned user_id source hs in
      let b = find_one_by_id-owned user_id target ht in
      let n = length-Permᴰ (laws.cards.find-Permᴰ (λ c. Card.column_id c == source.id) db.cards) in
      let moved = move_cards-latest o laws db keyed.cards source.id target.id apart in
      (
        after o laws db keyed.cards source.id target.id apart,
        after-IsMoved o laws db keyed.cards source.id target.id apart,
        ground (
          arith,
          a,
          b,
          n,
          transaction-ok o
              (move_cards o target.id (found o laws db keyed.cards source.id target.id apart)) db
              moved,
        ),
      )
