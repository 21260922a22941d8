-- ===== src/Cards/Service.antt =====
-- backend/src/cards/cards.service.ts: the methods of `CardsService` but for those of labels.
use kan_pad.Base.{ℕ, not, ◌&&◌, List, [], ◌∷◌, map, Option, get_or, ◌==◌, if◌then◌else◌}
use kan_pad.Base.Int.{ℤ, pos, ◌+ℤ◌, eqb_ℤ, min_ℤ}
use kan_pad.Base.Text.{Text}
use kan_pad.Store.Action.{
  Action, ok, not_found, gets, or_throw, modify, skip, when_some, transaction, ◌>>=◌, ◌>>◌,
}
use kan_pad.Store.Cascade.{cascade_cards}
use kan_pad.Store.Entities.{Card, Label, Checklist, ChecklistItem, Db}
use kan_pad.Store.Relations.{card_at}
use kan_pad.Store.Repository.{Orm}
use kan_pad.Summary.{CardSummary, summary_row, labels_of, attach_card_list_enrichments}
use kan_pad.Cards.Access.{
  to_date, find_column_by_id, find_card_by_id, update_card, cards_in_column,
  get_max_position_in_column,
}
use kan_pad.Cards.Order.{reorder_within_column, remove_from_column, insert_into_column}

-- class `CreateCardDto`
pub record CreateCardDto : Type 0 where
  pub title : Text
  pub column_id : ℕ
  pub position : Option ℤ
  pub description : Option Text
  pub due_date : Option Text

-- class `UpdateCardDto`; of the nullable fields `some none` is `null`
pub record UpdateCardDto : Type 0 where
  pub title : Option Text
  pub column_id : Option ℕ
  pub position : Option ℤ
  pub description : Option (Option Text)
  pub due_date : Option (Option Text)

-- `findById` returns the card with its labels and its checklists.
pub record CardDetail : Type 0 where
  pub card : Card
  pub labels : List Label
  pub checklists : List (Checklist × List ChecklistItem)

module _ (o : Orm) where
  -- `save(create({…}))` in `create`
  abbrev insert_card : CreateCardDto → ℤ → Action Card
  insert_card dto position db =
      let (card, cards) =
        o.cards.insert
          (λ g. record {
            id = g.id;
            title = dto.title;
            column_id = dto.column_id;
            position = position;
            description = dto.description;
            due_date = to_date o dto.due_date;
            created_at = g.created_at;
          })
          db.cards in
      (ok card, record db { cards = cards })

  unfoldable pub create : ℕ → CreateCardDto → Action Card
  unfolding find_column_by_id get_max_position_in_column to_date
  create user_id dto = do
    find_column_by_id o dto.column_id user_id
    last ← get_max_position_in_column o dto.column_id
    insert_card dto (get_or dto.position (last +ℤ pos 1))

  unfoldable pub find_all_by_column_id : ℕ → ℕ → Action (List CardSummary)
  unfolding find_column_by_id summary_row attach_card_list_enrichments
  find_all_by_column_id column_id user_id = do
    find_column_by_id o column_id user_id
    cards ← cards_in_column o column_id
    gets (λ db. attach_card_list_enrichments o db (map (summary_row db) cards))

  -- the block under `if (dto.position !== undefined)` in `update`
  unfoldable pub place : Card → UpdateCardDto → ℤ → Action (Unit {0})
  place card dto new_position =
      let target = get_or dto.column_id card.column_id in
      (if card.column_id == target && not (eqb_ℤ card.position new_position)
        then reorder_within_column o target card.position new_position
        else if not (card.column_id == target)
        then (do
          remove_from_column o card.column_id card.position
          last ← get_max_position_in_column o target
          insert_into_column o target (min_ℤ new_position (last +ℤ pos 1)))
        else skip)
      >> update_card o card.id (λ c. record c { position = new_position })

  -- the transaction of `update`
  unfoldable pub update_steps : Card → ℕ → UpdateCardDto → Action (Unit {0})
  update_steps card user_id dto = do
    when_some dto.title (λ title. update_card o card.id (λ c. record c { title = title }))
    when_some dto.description (λ text. update_card o card.id (λ c. record c { description = text }))
    when_some dto.due_date
        (λ date. update_card o card.id (λ c. record c { due_date = to_date o date }))
    when_some dto.position (place card dto)
    when_some dto.column_id (λ column_id. do
      find_column_by_id o column_id user_id
      update_card o card.id (λ c. record c { column_id = column_id }))

  unfoldable pub update : ℕ → ℕ → UpdateCardDto → Action Card
  update id user_id dto = do
    card ← find_card_by_id o id user_id
    transaction o (update_steps card user_id dto)
    card_at o id >>= or_throw (not_found "Card not found after update")

  -- the relations `checklists` and `checklists.items`
  abbrev checklists_with_items : Db → Card → List (Checklist × List ChecklistItem)
  checklists_with_items db card =
      map
        (λ l. (
          l,
          o.checklist_items.find (λ i. ChecklistItem.checklist_id i == Checklist.id l)
              db.checklist_items,
        ))
        (o.checklists.find (λ l. Checklist.card_id l == card.id) db.checklists)

  unfoldable pub find_by_id : ℕ → ℕ → Action CardDetail
  find_by_id id user_id = do
    card ← find_card_by_id o id user_id
    gets (λ db. record {
      card = card;
      labels = labels_of db card;
      checklists = checklists_with_items db card;
    })

  unfoldable pub remove : ℕ → ℕ → Action (Unit {0})
  remove id user_id = do
    card ← find_card_by_id o id user_id
    modify (λ db. cascade_cards (card.id ∷ []) (record db { cards = o.cards.remove card db.cards }))
