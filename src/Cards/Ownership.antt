-- ===== src/Cards/Ownership.antt =====
-- Who may reach a card: the user of the board of its column, and nobody else.
use kan_pad.Base.{ℕ, ap, ◌≡◌, ◌↔◌, inl, inr, Member, some, arith, ◌==◌, Option-cases}
use kan_pad.Cards.Access.{find_card_by_id, find_column_by_id}
use kan_pad.Store.Action.{ok}
use kan_pad.Store.Entities.{Board, BoardColumn, Card, Db}
use kan_pad.Store.Keyed.{IsKeyed, find_one-Member, find_one-id}
use kan_pad.Store.Laws.{IsLawful}
use kan_pad.Store.Repository.{Orm}

-- A column of a board of the user.
pub record OwnsColumn (db : Db) (user_id : ℕ) (column : BoardColumn) : Type 0 where
  pub column_in : Member column (Db.columns db)
  pub board : Board
  pub board_in : Member board (Db.boards db)
  pub board_is : Board.id board ≡ BoardColumn.board_id column
  pub owner_is : Board.user_id board ≡ user_id

-- A card in such a column.
pub record OwnsCard (db : Db) (user_id : ℕ) (card : Card) : Type 0 where
  pub card_in : Member card (Db.cards db)
  pub column : BoardColumn
  pub column_is : BoardColumn.id column ≡ Card.column_id card
  pub owns : OwnsColumn db user_id column

module _ (o : Orm) (laws : IsLawful o) where
  pub find_column_by_id-owned :
      (db : Db) (user_id : ℕ) (column : BoardColumn)
      → IsKeyed db
      → OwnsColumn db user_id column
      → find_column_by_id o column.id user_id db ≡ (ok column, db)
  unfolding find_column_by_id
  find_column_by_id-owned db user_id column k h =
      let c =
        find_one-Member BoardColumn.id o.columns laws.columns column db.columns k.columns
          h.column_in in
      let b = find_one-Member Board.id o.boards laws.boards h.board db.boards k.boards h.board_in in
      ground (arith, c, b, h.board_is, h.owner_is)

  pub find_card_by_id-owned :
      (db : Db) (user_id : ℕ) (card : Card)
      → IsKeyed db
      → OwnsCard db user_id card
      → find_card_by_id o card.id user_id db ≡ (ok card, db)
  unfolding find_card_by_id
  find_card_by_id-owned db user_id card k h =
      let owns = h.owns in
      let a = find_one-Member Card.id o.cards laws.cards card db.cards k.cards h.card_in in
      let c =
        find_one-Member BoardColumn.id o.columns laws.columns h.column db.columns k.columns
          owns.column_in in
      let b =
        find_one-Member Board.id o.boards laws.boards owns.board db.boards k.boards owns.board_in in
      ground (arith, a, c, b, h.column_is, owns.board_is, owns.owner_is)

  -- the lookups of a card's owner, all of them successful
  record Found (db : Db) (id user_id : ℕ) (card : Card) : Type 0 where
    column : BoardColumn
    board : Board
    card_found : o.cards.find_one (λ c. Card.id c == id) db.cards ≡ some card
    column_found :
        o.columns.find_one (λ c. BoardColumn.id c == Card.column_id card) db.columns ≡ some column
    board_found :
        o.boards.find_one (λ b. Board.id b == BoardColumn.board_id column) db.boards ≡ some board
    owner_is : Board.user_id board ≡ user_id

  find_card_by_id-Found :
      (db : Db) (id user_id : ℕ) (card : Card)
      → (find_card_by_id o id user_id db).0 ≡ ok card
      → Found db id user_id card
  unfolding find_card_by_id
  find_card_by_id-Found db id user_id card h =
      elim (Option-cases (o.cards.find_one (λ c. Card.id c == id) db.cards)) [
        | inl e ↦ absurd (ground (arith, e))
        | inr (a, ea) ↦
            elim (Option-cases
              (o.columns.find_one (λ c. BoardColumn.id c == Card.column_id a) db.columns)) [
                | inl e ↦ absurd (ground (arith, ea, e))
                | inr (c, ec) ↦
                    elim (Option-cases
                      (o.boards.find_one (λ b. Board.id b == BoardColumn.board_id c) db.boards)) [
                        | inl e ↦ absurd (ground (arith, ea, ec, e))
                        | inr (b, eb) ↦
                            let same : a ≡ card = ground (arith, ea, ec, eb) in
                            record {
                              column = c;
                              board = b;
                              card_found = rw (← same) ea;
                              column_found = rw (← same) ec;
                              board_found = eb;
                              owner_is = ground (arith, ea, ec, eb);
                            }
                      ]
              ]
      ]

  pub find_card_by_id-owns :
      (db : Db) (id user_id : ℕ) (card : Card)
      → (find_card_by_id o id user_id db).0 ≡ ok card
      → OwnsCard db user_id card × (Card.id card ≡ id)
  find_card_by_id-owns db id user_id card h =
      let f = find_card_by_id-Found db id user_id card h in
      let a = find_one-id Card.id o.cards laws.cards id card db.cards f.card_found in
      let c =
        find_one-id BoardColumn.id o.columns laws.columns card.column_id f.column db.columns
          f.column_found in
      let b =
        find_one-id Board.id o.boards laws.boards (BoardColumn.board_id f.column) f.board db.boards
          f.board_found in
      (
        record {
          card_in = a.0;
          column = f.column;
          column_is = c.1;
          owns = record {
            column_in = c.0;
            board = f.board;
            board_in = b.0;
            board_is = b.1;
            owner_is = f.owner_is;
          };
        },
        a.1,
      )

  -- A lookup reads, whatever it answers.
  pub find_card_by_id-reads : (db : Db) (id user_id : ℕ) → (find_card_by_id o id user_id db).1 ≡ db
  unfolding find_card_by_id
  find_card_by_id-reads db id user_id = ground arith

  pub find_column_by_id-reads :
      (db : Db) (id user_id : ℕ) → (find_column_by_id o id user_id db).1 ≡ db
  unfolding find_column_by_id
  find_column_by_id-reads db id user_id = ground arith

  -- `findCardById` answers with a card exactly when it has the id that was asked for and stands in a
  -- column of a board of the user; it never changes the tables. (Ids are primary keys.)
  pub find_card_by_id_iff :
      (db : Db) (id user_id : ℕ) (card : Card)
      → IsKeyed db
      → (find_card_by_id o id user_id db ≡ (ok card, db))
        ↔ (OwnsCard db user_id card × (Card.id card ≡ id))
  find_card_by_id_iff db id user_id card k = (
    λ h. find_card_by_id-owns db id user_id card (ap (λ p. p.0) h),
    λ h. rw (← h.1) (find_card_by_id-owned db user_id card k h.0),
  )
