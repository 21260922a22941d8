-- ===== src/Cards/Access.antt =====
-- backend/src/cards/cards.service.ts: the private lookups of `CardsService`.
use kan_pad.Base.{ℕ, not, List, Option, none, some, get_or, ◌==◌, if◌then◌else◌}
use kan_pad.Base.Int.{ℤ, negsuc}
use kan_pad.Base.Text.{Text, is_empty}
use kan_pad.Store.Action.{
  Action, not_found, forbidden, gets, pure, throw_if, or_throw, modify, ◌>>=◌, ◌>>◌,
}
use kan_pad.Store.Entities.{Board, BoardColumn, Card}
use kan_pad.Store.Relations.{card_at, column_at, board_of, owner_of_card}
use kan_pad.Store.Repository.{Orm, asc}

module _ (o : Orm) where
  -- `text ? new Date(text) : null`
  unfoldable pub to_date : Option Text → Option ℤ
  to_date none = none
  to_date (some text) = if is_empty text then none else some (o.new_date text)

  unfoldable pub find_card_by_id : ℕ → ℕ → Action Card
  find_card_by_id id user_id = do
    card ← card_at o id >>= or_throw (not_found "Card not found")
    owner ← owner_of_card o card
    throw_if (forbidden "Access denied") (not (owner == user_id))
    pure card

  unfoldable pub find_column_by_id : ℕ → ℕ → Action BoardColumn
  find_column_by_id id user_id = do
    column ← column_at o id >>= or_throw (not_found "Column not found")
    board ← board_of o column
    throw_if (forbidden "Access denied") (not (Board.user_id board == user_id))
    pure column

  abbrev pub save_card : Card → Action (Unit {0})
  save_card c = modify (λ db. record db { cards = o.cards.save c db.cards })

  -- `cardRepo.update(id, {…})`
  abbrev pub update_card : ℕ → (Card → Card) → Action (Unit {0})
  update_card id change = modify (λ db. record db { cards = o.cards.update id change db.cards })

  -- `Number(result?.max ?? -1)`
  unfoldable pub get_max_position_in_column : ℕ → Action ℤ
  get_max_position_in_column column_id = gets (λ db.
      get_or (o.cards.max Card.position (λ c. Card.column_id c == column_id) db.cards) (negsuc 0))

  -- `find({where: { column_id}, order: {position: 'ASC'} })`
  abbrev pub cards_in_column : ℕ → Action (List Card)
  cards_in_column column_id =
      gets
        (λ db. o.cards.find_ordered asc Card.position (λ c. Card.column_id c == column_id) db.cards)
