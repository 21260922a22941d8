-- ===== src/Tests/CardRuns.antt =====
-- The theorems on cards and columns, applied to the small database.
use kan_pad.Base.{◌≡◌, ◌↔◌, refl, inl, inr, arith, List, [], ◌∷◌, ◌++◌, none, map}
use kan_pad.Base.Int.{pos}
use kan_pad.Cards.Access.{find_card_by_id}
use kan_pad.Cards.Dense.{IsDense}
use kan_pad.Cards.Moving.{moved}
use kan_pad.Cards.Ownership.{OwnsColumn, OwnsCard, find_card_by_id_iff}
use kan_pad.Cards.Refusal.{serve, CardRequest, serve-foreign}
use kan_pad.Cards.Reorder.{move_to, update-moved, update-gap}
use kan_pad.Cards.Creation.{create_last}
use kan_pad.Cards.CrossMove.{send_to, update-transferred}
use kan_pad.Cards.Service.{CreateCardDto, create, update}
use kan_pad.Cards.Transfer.{transferred}
use kan_pad.Columns.Sorting.{IsSorted, sort_cards-IsSorted}
use kan_pad.Columns.View.{ColumnView}
use kan_pad.Store.Repository.{desc}
use kan_pad.Columns.MoveAll.{move_all_cards-IsMoved}
use kan_pad.Columns.Moves.{IsMoved}
use kan_pad.Columns.Service.{move_all_cards, sort_cards}
use kan_pad.Store.Action.{HttpError, ok, err}
use kan_pad.Store.Entities.{Card, Db}
use kan_pad.Tests.World.{
  engine, engine-IsLawful, world, world-IsKeyed, card_at, column_at, board_at,
}

pub world-IsDense : IsDense 1 world.cards
world-IsDense = record {
  in_range = λ c m h. ground arith;
  once = λ c d mc md hc hd e. ground arith;
}

pub first_column : OwnsColumn world 1 (column_at 1 0)
first_column = record {
  column_in = inl refl;
  board = board_at 1 1;
  board_in = inl refl;
  board_is = refl;
  owner_is = refl;
}

pub second_column : OwnsColumn world 1 (column_at 2 1)
second_column = record {
  column_in = inr (inl refl);
  board = board_at 1 1;
  board_in = inl refl;
  board_is = refl;
  owner_is = refl;
}

abbrev new_card : CreateCardDto
new_card = record {
  title = 9 ∷ [];
  column_id = 1;
  position = none;
  description = none;
  due_date = none;
}

pub first_card : OwnsCard world 1 (card_at 1 1 0)
first_card = record {
  card_in = inl refl;
  column = column_at 1 0;
  column_is = refl;
  owns = first_column;
}

-- user 2 has none of the cards
not_of_second : (c : Card) → Card.id c ≡ 1 → OwnsCard world 2 c → ⊥
not_of_second c e owns =
    let columns = owns.owns.column_in in
    let boards = owns.owns.board_in in ground (arith, owns.owns.board_is, owns.owns.owner_is)

update-moved_example :
    (update engine 1 1 (move_to (pos 1)) world ≡ (
      ok (record (card_at 1 1 0) { position = pos 1 }),
      record world { cards = map (moved (card_at 1 1 0) (pos 1)) world.cards },
    ))
    × IsDense 1 (map (moved (card_at 1 1 0) (pos 1)) world.cards)
update-moved_example =
    update-moved engine engine-IsLawful (card_at 1 1 0) (pos 1) world world-IsKeyed (inl refl)
      world-IsDense (omega arith, omega arith) 1 first_card

update-gap_example : ¬ IsDense 1 (Db.cards (update engine 1 1 (move_to (pos 7)) world).1)
update-gap_example =
    update-gap engine engine-IsLawful (card_at 1 1 0) (pos 7) world world-IsKeyed world-IsDense
      (λ r. omega (arith, r.1)) 1 first_card

find_card_by_id_iff_example :
    (find_card_by_id engine 1 1 world ≡ (ok (card_at 1 1 0), world))
    ↔ (OwnsCard world 1 (card_at 1 1 0) × ((card_at 1 1 0).id ≡ 1))
find_card_by_id_iff_example =
    find_card_by_id_iff engine engine-IsLawful world 1 1 (card_at 1 1 0) world-IsKeyed

serve-foreign_example :
    (e : HttpError) × (serve engine CardRequest.remove_request 1 2 world ≡ (err e, world))
serve-foreign_example =
    serve-foreign engine engine-IsLawful world 1 2 not_of_second CardRequest.remove_request

move_all_cards-IsMoved_example :
    (cards : List Card) × IsMoved 1 2 world.cards cards
    × (move_all_cards engine 1 2 1 world
        ≡ (ok (record { moved_count = 2; target_name = 2 ∷ [] }), record world { cards = cards }))
move_all_cards-IsMoved_example =
    move_all_cards-IsMoved engine engine-IsLawful world world-IsKeyed 1 (column_at 1 0)
      (column_at 2 1) first_column second_column refl (omega arith) (omega arith)

pub second_IsDense : IsDense 2 world.cards
second_IsDense = record {
  in_range = λ c m h. ground arith;
  once = λ c d mc md hc hd e. ground arith;
}

update-transferred_example :
    (update engine 1 1 (send_to 2 (pos 0)) world ≡ (
      ok (record (card_at 1 1 0) { column_id = 2; position = pos 0 }),
      record world { cards = map (transferred (card_at 1 1 0) 2 (pos 0)) world.cards },
    ))
    × IsDense 1 (map (transferred (card_at 1 1 0) 2 (pos 0)) world.cards)
    × IsDense 2 (map (transferred (card_at 1 1 0) 2 (pos 0)) world.cards)
update-transferred_example =
    update-transferred engine engine-IsLawful (card_at 1 1 0) (column_at 2 1) (pos 0) world
      world-IsKeyed refl second_IsDense (omega arith, omega arith) 1 first_card second_column
      world-IsDense

create_last_example :
    (card : Card) × (create engine 1 new_card world
      ≡ (ok card, record world { cards = world.cards ++ card ∷ [] }))
    × (card.column_id ≡ 1)
    × (card.title ≡ 9 ∷ [])
    × (card.position ≡ pos 2)
    × IsDense 1 (world.cards ++ card ∷ [])
create_last_example =
    create_last engine engine-IsLawful world world-IsKeyed (column_at 1 0) world-IsDense 1 new_card
      first_column refl refl

sort_cards-IsSorted_example :
    (place : Card → Card) × IsSorted desc 1 place world.cards
    × (view : ColumnView) × (sort_cards engine 1 1 desc world
        ≡ (ok view, record world { cards = map place world.cards }))
sort_cards-IsSorted_example =
    sort_cards-IsSorted engine engine-IsLawful world world-IsKeyed 1 (column_at 1 0) desc
      first_column
