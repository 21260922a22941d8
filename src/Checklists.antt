-- ===== src/Checklists.antt =====
-- backend/src/checklists/checklists.service.ts: `ChecklistsService`, method by method.
pub mod Items
pub mod Refusal
use kan_pad.Base.{ℕ, Bool, not, ◌||◌, List, [], ◌∷◌, map, Option, get_or, is_some, ◌==◌}
use kan_pad.Base.Int.{ℤ, pos, negsuc, ◌+ℤ◌}
use kan_pad.Base.Text.{Text}
use kan_pad.Store.Action.{
  Action, ok, bad_request, not_found, forbidden, gets, pure, throw_if, or_throw, modify, when,
  when_some, ◌>>=◌, ◌>>◌,
}
use kan_pad.Store.Cascade.{cascade_checklists}
use kan_pad.Store.Entities.{Card, Checklist, ChecklistItem, Db}
use kan_pad.Store.Relations.{
  card_at, checklist_at, checklist_item_at, owner_of_card, card_of, checklist_of, items_of,
}
use kan_pad.Store.Repository.{Orm, asc}

pub record CreateChecklistDto : Type 0 where
  pub title : Text
  pub card_id : Option ℕ

pub record UpdateChecklistDto : Type 0 where
  pub title : Option Text

pub record CreateChecklistItemDto : Type 0 where
  pub text : Text
  pub position : Option ℤ

pub record UpdateChecklistItemDto : Type 0 where
  pub text : Option Text
  pub is_completed : Option Bool

module _ (o : Orm) where
  unfoldable pub find_card_by_id : ℕ → ℕ → Action Card
  find_card_by_id id user_id = do
    card ← card_at o id >>= or_throw (not_found "Card not found")
    owner ← owner_of_card o card
    throw_if (forbidden "Access denied") (not (owner == user_id))
    pure card

  unfoldable pub find_checklist_by_id : ℕ → ℕ → Action Checklist
  find_checklist_by_id id user_id = do
    checklist ← checklist_at o id >>= or_throw (not_found "Checklist not found")
    card ← card_of o checklist
    owner ← owner_of_card o card
    throw_if (forbidden "Access denied") (not (owner == user_id))
    pure checklist

  unfoldable pub find_checklist_item_by_id : ℕ → ℕ → Action ChecklistItem
  find_checklist_item_by_id id user_id = do
    item ← checklist_item_at o id >>= or_throw (not_found "Checklist item not found")
    checklist ← checklist_of o item
    card ← card_of o checklist
    owner ← owner_of_card o card
    throw_if (forbidden "Access denied") (not (owner == user_id))
    pure item

  -- `findChecklistByIdWithItems`
  unfoldable pub find_checklist_by_id_with_items : ℕ → ℕ → Action (Checklist × List ChecklistItem)
  find_checklist_by_id_with_items id user_id = do
    checklist ← find_checklist_by_id id user_id
    items ← items_of o checklist
    gets (λ _. (checklist, items))

  abbrev insert_checklist : Text → ℕ → Action Checklist
  insert_checklist title card_id db =
      let (checklist, checklists) =
        o.checklists.insert
          (λ g. record { id = g.id; title = title; card_id = card_id; created_at = g.created_at })
          db.checklists in
      (ok checklist, record db { checklists = checklists })

  unfoldable pub create : ℕ → CreateChecklistDto → Action Checklist
  create user_id dto = do
    card_id ← or_throw (bad_request "card_id is required") dto.card_id
    find_card_by_id card_id user_id
    insert_checklist dto.title card_id

  -- the lists of a card, each with its items
  abbrev with_items : Db → Checklist → Checklist × List ChecklistItem
  with_items db l =
      (l, o.checklist_items.find (λ i. ChecklistItem.checklist_id i == l.id) db.checklist_items)

  unfoldable pub find_all_by_card_id : ℕ → ℕ → Action (List (Checklist × List ChecklistItem))
  find_all_by_card_id card_id user_id = do
    find_card_by_id card_id user_id
    gets (λ db. map (with_items db) (
        o.checklists.find_ordered asc (λ l. pos (Checklist.created_at l))
          (λ l. Checklist.card_id l == card_id) db.checklists))

  unfoldable pub find_by_id : ℕ → ℕ → Action (Checklist × List ChecklistItem)
  find_by_id id user_id = find_checklist_by_id_with_items id user_id

  abbrev rename : Text → Checklist → Checklist
  rename title l = record l { title = title }

  unfoldable pub update : ℕ → ℕ → UpdateChecklistDto → Action (Checklist × List ChecklistItem)
  update id user_id dto = do
    find_checklist_by_id id user_id
    when_some dto.title (λ title.
        modify
          (λ db. record db { checklists = o.checklists.update id (rename title) db.checklists }))
    updated ← checklist_at o id >>= or_throw (not_found "Checklist not found after update")
    items ← items_of o updated
    gets (λ _. (updated, items))

  unfoldable pub remove : ℕ → ℕ → Action (Unit {0})
  remove id user_id = do
    checklist ← find_checklist_by_id id user_id
    modify (λ db.
        cascade_checklists (checklist.id ∷ [])
          (record db { checklists = o.checklists.remove checklist db.checklists }))

  abbrev insert_item : ℕ → Text → ℤ → Action ChecklistItem
  insert_item checklist_id text position db =
      let (item, items) =
        o.checklist_items.insert
          (λ g. record {
            id = g.id;
            text = text;
            is_completed = Bool.false;
            checklist_id = checklist_id;
            position = position;
          })
          db.checklist_items in
      (ok item, record db { checklist_items = items })

  unfoldable pub create_item : ℕ → ℕ → CreateChecklistItemDto → Action ChecklistItem
  create_item checklist_id user_id dto = do
    find_checklist_by_id checklist_id user_id
    last ← gets (λ db.
        o.checklist_items.max ChecklistItem.position
          (λ i. ChecklistItem.checklist_id i == checklist_id) db.checklist_items)
    insert_item checklist_id dto.text (get_or dto.position (get_or last (negsuc 0) +ℤ pos 1))

  -- the row with `updateData` applied
  abbrev change_item : UpdateChecklistItemDto → ChecklistItem → ChecklistItem
  change_item dto i = record i {
    text = get_or dto.text i.text;
    is_completed = get_or dto.is_completed i.is_completed;
  }

  unfoldable pub update_item : ℕ → ℕ → UpdateChecklistItemDto → Action ChecklistItem
  update_item id user_id dto = do
    find_checklist_item_by_id id user_id
    when (is_some dto.text || is_some dto.is_completed) (
        modify (λ db. record db {
          checklist_items = o.checklist_items.update id (change_item dto) db.checklist_items;
        }))
    checklist_item_at o id >>= or_throw (not_found "Checklist item not found after update")

  unfoldable pub remove_item : ℕ → ℕ → Action (Unit {0})
  remove_item id user_id = do
    item ← find_checklist_item_by_id id user_id
    modify (λ db. record db { checklist_items = o.checklist_items.remove item db.checklist_items })
