-- ===== src/Cards/CrossMove.antt =====
-- `update` with a column and a position: the whole method, for a card that goes to another column.
use kan_pad.Base.{
  ℕ, suc, ap, ◌∙◌, ◌≡◌, refl, false, none, some, List, map, map-map, map-cong, Member-map, arith,
  length-select-map, ◌==◌, ==_refl, if◌then◌else◌,
}
use kan_pad.Base.Int.{ℤ, pos, ◌+ℤ◌, ◌-ℤ◌, min_ℤ}
use kan_pad.Cards.Access.{get_max_position_in_column}
use kan_pad.Cards.Dense.{IsDense, InRange, count_in}
use kan_pad.Cards.Full.{get_max_position-dense}
use kan_pad.Cards.Ownership.{OwnsCard, OwnsColumn, find_card_by_id-owned, find_column_by_id-owned}
use kan_pad.Cards.Passes.{
  shift_down, shift_up, in_column, reposition, remove_from_column-pass, insert_into_column-pass,
}
use kan_pad.Cards.Service.{UpdateCardDto, place, update_steps, update}
use kan_pad.Cards.Transfer.{transferred, source-IsDense, target-IsDense}
use kan_pad.Cards.Untouched.{IsKeyed-cards, owned_cards, reposition-IsDense}
use kan_pad.Store.Action.{ok, transaction-ok}
use kan_pad.Store.Distinct.{Distinct, Distinct-map}
use kan_pad.Store.Entities.{BoardColumn, Card, Db}
use kan_pad.Store.Keyed.{IsKeyed, find_one-Member}
use kan_pad.Store.Laws.{IsLawful}
use kan_pad.Store.Repository.{Orm}

-- the body of a request that moves a card to a position of a column
abbrev pub send_to : ℕ → ℤ → UpdateCardDto
send_to target new = record {
  title = none;
  column_id = some target;
  position = some new;
  description = none;
  due_date = none;
}

clamp_new : (n : ℕ) (new : ℤ) → InRange (suc n) new → min_ℤ new (pos n -ℤ pos 1 +ℤ pos 1) ≡ new
unfolding ◌-ℤ◌ ◌+ℤ◌
clamp_new n new r = ground arith

module _ (o : Orm) (laws : IsLawful o) (card : Card) (column : BoardColumn) (new : ℤ) (db : Db)
    (keyed : IsKeyed db) (apart : (card.column_id == column.id) ≡ false)
    (dense : IsDense column.id db.cards)
    (range : InRange (suc (count_in column.id db.cards)) new) where
  -- the table after each of the steps
  abbrev closed : List Card
  closed = map (reposition card.column_id (shift_down card.position)) db.cards

  abbrev opened : List Card
  opened = map (reposition column.id (shift_up new)) closed

  abbrev set_position : Card → Card
  set_position c = if c.id == card.id then record c { position = new } else c

  abbrev set_column : Card → Card
  set_column c = if c.id == card.id then record c { column_id = column.id } else c

  closed-Distinct : Distinct Card.id closed
  closed-Distinct = Distinct-map Card.id _ db.cards (λ c. ground arith) keyed.cards

  count_closed : count_in column.id closed ≡ count_in column.id db.cards
  count_closed = length-select-map (in_column column.id) _ db.cards (λ c. ground arith)

  last_closed :
      get_max_position_in_column o column.id (record db { cards = closed })
      ≡ (ok (pos (count_in column.id db.cards) -ℤ pos 1), record db { cards = closed })
  last_closed =
      get_max_position-dense o laws (record db { cards = closed }) closed-Distinct column.id
        (reposition-IsDense card.column_id column.id _ db.cards apart dense)
      ∙ ap (λ n. (ok (pos n -ℤ pos 1), record db { cards = closed })) count_closed

  place-opened :
      place o card (send_to column.id new) new db
      ≡ (ok tt, record db { cards = map set_position opened })
  unfolding place
  place-opened =
      let removed = remove_from_column-pass o laws card.column_id card.position db keyed.cards in
      let inserted =
        insert_into_column-pass o laws column.id new (record db { cards = closed })
          closed-Distinct in
      let at_new : min_ℤ new (pos (count_in column.id db.cards) -ℤ pos 1 +ℤ pos 1) ≡ new =
        clamp_new _ new range in
      let updated = laws.new_cards.update_lem card.id (λ c. record c { position = new }) opened in
      ground (arith, apart, removed, last_closed, at_new, inserted, updated)

  written : map set_column (map set_position opened) ≡ map (transferred card column.id new) db.cards
  written =
      ap (λ t. map set_column (map set_position t))
        (map-map (reposition card.column_id (shift_down card.position))
          (reposition column.id (shift_up new)) db.cards)
      ∙ ap (map set_column) (map-map _ set_position db.cards)
      ∙ map-map _ set_column db.cards
      ∙ map-cong _ (transferred card column.id new) db.cards (λ c m. ground arith)

  positioned-Distinct : Distinct Card.id (map set_position opened)
  positioned-Distinct =
      Distinct-map Card.id set_position opened (λ c. ground arith)
        (Distinct-map Card.id (reposition column.id (shift_up new)) closed (λ c. ground arith)
          closed-Distinct)

  update_steps-transferred :
      (user_id : ℕ)
      → OwnsColumn db user_id column
      → update_steps o card user_id (send_to column.id new) db
        ≡ (ok tt, record db { cards = map (transferred card column.id new) db.cards })
  unfolding update_steps
  update_steps-transferred user_id owns =
      let after = map set_position opened in
      let found =
        find_column_by_id-owned o laws (record db { cards = after }) user_id column
          (IsKeyed-cards db after keyed positioned-Distinct)
          (owned_cards db after user_id column owns) in
      let updated =
        laws.new_cards.update_lem card.id (λ c. record c { column_id = column.id }) after in
      ground (arith, place-opened, found, updated, written)

  -- A user moves one of their cards to another of their columns, at a position from 0 to the number n
  -- of the cards there; the positions of both columns are 0 … without gaps. The method succeeds and
  -- answers with the card in its new place; the table is the old one with the card there, the cards
  -- behind its old place one up and those from its new place on one down; and the positions of both
  -- columns are again without gaps, each taken once.
  pub update-transferred :
      (user_id : ℕ)
      → OwnsCard db user_id card
      → OwnsColumn db user_id column
      → IsDense card.column_id db.cards
      → (update o card.id user_id (send_to column.id new) db ≡ (
        ok (record card { column_id = column.id; position = new }),
        record db { cards = map (transferred card column.id new) db.cards },
      ))
        × IsDense card.column_id (map (transferred card column.id new) db.cards)
        × IsDense column.id (map (transferred card column.id new) db.cards)
  unfolding update
  update-transferred user_id owns owns_column source_dense =
      let looked_up = find_card_by_id-owned o laws db user_id card keyed owns in
      let steps = update_steps-transferred user_id owns_column in
      let self : transferred card column.id new card
          ≡ record card { column_id = column.id; position = new } =
        rw (==_refl card.id) refl in
      let found =
        find_one-Member Card.id o.cards laws.cards (transferred card column.id new card)
          (map (transferred card column.id new) db.cards)
          (Distinct-map Card.id (transferred card column.id new) db.cards (λ c. ground arith)
            keyed.cards)
          (Member-map (transferred card column.id new) card db.cards owns.card_in) in
      (
        ground (
          arith,
          looked_up,
          transaction-ok o (update_steps o card user_id (send_to column.id new)) db steps,
          found,
          self,
        ),
        source-IsDense card column.id new apart db.cards keyed.cards owns.card_in source_dense,
        target-IsDense card column.id new apart db.cards keyed.cards owns.card_in dense range,
      )
