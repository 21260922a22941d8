-- ===== src/Api/Checklists.antt =====
-- backend/src/checklists/checklists.controller.ts.
use kan_pad.Base.{ℕ, [], some}
use kan_pad.Base.Text.{codes}
use kan_pad.Api.{Reply, single, nothing, answers, answers_with, answered}
use kan_pad.Api.Content.{ChecklistResponse, to_checklist_response}
use kan_pad.Checklists.{
  CreateChecklistDto, UpdateChecklistDto, CreateChecklistItemDto, UpdateChecklistItemDto, create,
  find_by_id, update, remove, create_item, update_item, remove_item,
}
use kan_pad.Store.Action.{Action, ◌>>=◌, ◌>>◌}
use kan_pad.Store.Entities.{ChecklistItem}
use kan_pad.Store.Repository.{Orm}

-- the routes of `ChecklistsController`
pub data ChecklistsRequest : Type 0 where
  create_checklist : ℕ → CreateChecklistDto → ChecklistsRequest
  show_checklist : ℕ → ChecklistsRequest
  update_checklist : ℕ → UpdateChecklistDto → ChecklistsRequest
  delete_checklist : ℕ → ChecklistsRequest
  add_item : ℕ → CreateChecklistItemDto → ChecklistsRequest
  patch_item : ℕ → UpdateChecklistItemDto → ChecklistsRequest
  delete_item : ℕ → ChecklistsRequest

pub data ChecklistsAnswer : Type 0 where
  of_checklist : Reply ChecklistResponse → ChecklistsAnswer
  of_item : Reply ChecklistItem → ChecklistsAnswer

module _ (o : Orm) where
  -- `dto.card_id = cardId` in `create`
  unfoldable pub checklists_controller : ChecklistsRequest → ℕ → Action ChecklistsAnswer
  checklists_controller (create_checklist card_id dto) user_id = answered of_checklist (do
    checklist ← create o user_id (record dto { card_id = some card_id })
    answers_with (codes "Checklist created") (single (to_checklist_response (checklist, []))))
  checklists_controller (show_checklist id) user_id =
      answered of_checklist
        (do checklist ← find_by_id o id user_id; answers (single (to_checklist_response checklist)))
  checklists_controller (update_checklist id dto) user_id = answered of_checklist (do
    checklist ← update o id user_id dto
    answers_with (codes "Checklist updated") (single (to_checklist_response checklist)))
  checklists_controller (delete_checklist id) user_id =
      answered of_checklist
        (do remove o id user_id; answers_with (codes "Checklist deleted") nothing)
  checklists_controller (add_item checklist_id dto) user_id = answered of_item (do
    item ← create_item o checklist_id user_id dto
    answers_with (codes "Item created") (single item))
  checklists_controller (patch_item id dto) user_id =
      answered of_item
        (do item ← update_item o id user_id dto; answers_with (codes "Item updated") (single item))
  checklists_controller (delete_item id) user_id =
      answered of_item (do remove_item o id user_id; answers_with (codes "Item deleted") nothing)
