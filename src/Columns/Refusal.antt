-- ===== src/Columns/Refusal.antt =====
-- What a user who does not own a column can do to it: nothing.
use kan_pad.Base.{ℕ, ◌≡◌, ◌==◌, inl, inr, arith, Option-cases}
use kan_pad.Cards.Ownership.{OwnsColumn}
use kan_pad.Columns.Service.{
  UpdateColumnDto, find_one_by_id, update, remove, sort_cards, move_all_cards,
}
use kan_pad.Store.Action.{Action, ok, err, HttpError, ◌>>◌, pure, Result-cases, >>=-err}
use kan_pad.Store.Entities.{Board, BoardColumn, Db}
use kan_pad.Store.Keyed.{find_one-id}
use kan_pad.Store.Laws.{IsLawful}
use kan_pad.Store.Repository.{Orm, Order}

-- the requests on a column that can change the tables; the last two move its cards to another
-- column, and the cards of another column to it
pub data ColumnRequest : Type 0 where
  update_request : UpdateColumnDto → ColumnRequest
  remove_request : ColumnRequest
  sort_request : Order → ColumnRequest
  empty_request fill_request : ℕ → ColumnRequest

module _ (o : Orm) where
  -- the method that the controller calls, with the result dropped
  pub serve : ColumnRequest → ℕ → ℕ → Action (Unit {0})
  serve (update_request dto) id user_id = update o id user_id dto >> pure tt
  serve remove_request id user_id = remove o id user_id
  serve (sort_request order) id user_id = sort_cards o id user_id order >> pure tt
  serve (empty_request target_id) id user_id = move_all_cards o id target_id user_id >> pure tt
  serve (fill_request source_id) id user_id = move_all_cards o source_id id user_id >> pure tt

module _ (o : Orm) (laws : IsLawful o) (db : Db) where
  find_one_by_id-reads : (id user_id : ℕ) → (find_one_by_id o id user_id db).1 ≡ db
  unfolding find_one_by_id
  find_one_by_id-reads id user_id = ground arith

  pub find_one_by_id-owns :
      (id user_id : ℕ) (column : BoardColumn)
      → (find_one_by_id o id user_id db).0 ≡ ok column
      → OwnsColumn db user_id column × (column.id ≡ id)
  unfolding find_one_by_id
  find_one_by_id-owns id user_id column h =
      elim (Option-cases (o.columns.find_one (λ c. BoardColumn.id c == id) db.columns)) [
        | inl e ↦ absurd (ground (arith, e))
        | inr (c, ec) ↦
            elim (Option-cases (o.boards.find_one (λ b. Board.id b == c.board_id) db.boards)) [
              | inl e ↦ absurd (ground (arith, ec, e))
              | inr (b, eb) ↦
                  let same : c ≡ column = ground (arith, ec, eb) in
                  let own : b.user_id ≡ user_id = ground (arith, ec, eb) in
                  let (mc, ic) =
                    find_one-id BoardColumn.id o.columns laws.columns id c db.columns ec in
                  let (mb, ib) =
                    find_one-id Board.id o.boards laws.boards c.board_id b db.boards eb in
                  (
                    record {
                      column_in = rw (← same) mc;
                      board = b;
                      board_in = mb;
                      board_is = rw (← same) ib;
                      owner_is = own;
                    },
                    rw (← same) ic,
                  )
            ]
      ]

  module _ (id user_id : ℕ)
      (foreign : (c : BoardColumn) → c.id ≡ id → OwnsColumn db user_id c → ⊥) where
    lookup_fails : (e : HttpError) × (find_one_by_id o id user_id db ≡ (err e, db))
    lookup_fails = elim (Result-cases (find_one_by_id o id user_id db).0) [
      | inl (e, h) ↦ (e, λ i. (h i, find_one_by_id-reads id user_id i))
      | inr (column, h) ↦
          let (owns, same) = find_one_by_id-owns id user_id column h in
          absurd (foreign column same owns)
    ]

    fill_fails :
        (source_id : ℕ) → (e : HttpError) × (move_all_cards o source_id id user_id db ≡ (err e, db))
    unfolding move_all_cards
    fill_fails source_id =
        let (e, h) = lookup_fails in
        let reads = find_one_by_id-reads source_id user_id in
        elim (Result-cases (find_one_by_id o source_id user_id db).0) [
          | inl (f, k) ↦ (f, ground (arith, k, reads))
          | inr (column, k) ↦ (e, ground (arith, h, k, reads))
        ]

    -- Each request on a column that is not the user's throws and leaves the tables as they were, and so
    -- does a request to move cards to such a column.
    pub serve-foreign_column :
        (request : ColumnRequest) → (e : HttpError) × (serve o request id user_id db ≡ (err e, db))
    unfolding serve update remove sort_cards move_all_cards
    serve-foreign_column (update_request dto) = let (e, h) = lookup_fails in (e, ground (arith, h))
    serve-foreign_column remove_request = let (e, h) = lookup_fails in (e, ground (arith, h))
    serve-foreign_column (sort_request order) = let (e, h) = lookup_fails in (e, ground (arith, h))
    serve-foreign_column (empty_request target_id) =
        let (e, h) = lookup_fails in (e, ground (arith, h))
    serve-foreign_column (fill_request source_id) =
        let (e, h) = fill_fails source_id in
        (e, >>=-err (move_all_cards o source_id id user_id) (λ _. pure tt) db h)
