-- ===== src/Api/Labels.antt =====
-- backend/src/labels/labels.controller.ts.
use kan_pad.Base.{ℕ}
use kan_pad.Base.Text.{codes}
use kan_pad.Api.{Reply, many, single, nothing, answers, answers_with}
use kan_pad.Labels.{CreateLabelDto, UpdateLabelDto, find_all, create, update, remove}
use kan_pad.Store.Action.{Action, ◌>>=◌, ◌>>◌}
use kan_pad.Store.Entities.{Label}
use kan_pad.Store.Repository.{Orm}

-- the routes of `LabelsController`
pub data LabelsRequest : Type 0 where
  list_labels : LabelsRequest
  create_label : CreateLabelDto → LabelsRequest
  update_label : ℕ → UpdateLabelDto → LabelsRequest
  delete_label : ℕ → LabelsRequest

module _ (o : Orm) where
  unfoldable pub labels_controller : LabelsRequest → ℕ → Action (Reply Label)
  labels_controller list_labels user_id = do labels ← find_all o user_id; answers (many labels)
  labels_controller (create_label dto) user_id = do
    label ← create o user_id dto
    answers_with (codes "Label created") (single label)
  labels_controller (update_label id dto) user_id = do
    label ← update o id user_id dto
    answers_with (codes "Label updated") (single label)
  labels_controller (delete_label id) user_id = do remove o id user_id; answers nothing
