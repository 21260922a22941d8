-- ===== src/Frontend/Queries/Items.antt =====
-- `useUpdateChecklistItem` of frontend/src/features/checklists/use-checklists.ts.
use kan_pad.Base.{ℕ, List, map, Option, none, some, get_or, ◌==◌, if◌then◌else◌}
use kan_pad.Checklists.{UpdateChecklistItemDto}
use kan_pad.Frontend.Queries.{QueryClient}
use kan_pad.Store.Entities.{Card, Label, Checklist, ChecklistItem}

-- what is cached under `['card', cardId]`; the code allows a card without `checklists`
pub record CachedCard : Type 0 where
  pub card : Card
  pub labels : List Label
  pub checklists : Option (List (Checklist × List ChecklistItem))

-- `item.id === itemId ? {...item, ...data} : item`
unfoldable pub merge_item : ℕ → UpdateChecklistItemDto → ChecklistItem → ChecklistItem
merge_item item_id dto i =
    if i.id == item_id
    then record i {
      text = get_or dto.text i.text;
      is_completed = get_or dto.is_completed i.is_completed;
    }
    else i

-- the updater
unfoldable pub merge_card : ℕ → UpdateChecklistItemDto → Option CachedCard → Option CachedCard
unfolding merge_item
merge_card item_id dto none = none
merge_card item_id dto (some card) = some (record card {
  checklists = elim (CachedCard.checklists card) [
    | none ↦ none
    | some lists ↦ some (map (λ l. (l.0, map (merge_item item_id dto) l.1)) lists)
  ];
})

module _ {S : Type 0} (q : QueryClient S ℕ CachedCard) where
  -- `onMutate`; the context is `previousCardData`
  unfoldable pub update_on_mutate : ℕ → UpdateChecklistItemDto → ℕ → S → S × Option CachedCard
  unfolding merge_card
  update_on_mutate item_id dto card_id s =
      (q.set_query_data s card_id (merge_card item_id dto), q.get_query_data s card_id)

  -- `onError`
  unfoldable pub update_on_error : ℕ → Option CachedCard → S → S
  update_on_error card_id none s = s
  update_on_error card_id (some previous) s = q.set_query_data s card_id (λ old. some previous)
