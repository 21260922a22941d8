-- ===== src/Api/Tags.antt =====
-- backend/src/tags/tags.controller.ts.
use kan_pad.Base.{ℕ}
use kan_pad.Base.Text.{codes}
use kan_pad.Api.{Reply, many, single, nothing, answers, answers_with}
use kan_pad.Store.Action.{Action, ◌>>=◌, ◌>>◌}
use kan_pad.Store.Entities.{Tag}
use kan_pad.Store.Repository.{Orm}
use kan_pad.Tags.{CreateTagDto, UpdateTagDto, find_all, create, update, remove}

-- the routes of `TagsController`
pub data TagsRequest : Type 0 where
  list_tags : TagsRequest
  create_tag : CreateTagDto → TagsRequest
  update_tag : ℕ → UpdateTagDto → TagsRequest
  delete_tag : ℕ → TagsRequest

module _ (o : Orm) where
  -- `toTagResponse` keeps every field.
  unfoldable pub tags_controller : TagsRequest → ℕ → Action (Reply Tag)
  tags_controller list_tags user_id = do tags ← find_all o user_id; answers (many tags)
  tags_controller (create_tag dto) user_id = do
    tag ← create o user_id dto
    answers_with (codes "Tag created") (single tag)
  tags_controller (update_tag id dto) user_id = do
    tag ← update o id user_id dto
    answers_with (codes "Tag updated") (single tag)
  tags_controller (delete_tag id) user_id = do
    remove o id user_id
    answers_with (codes "Tag deleted") nothing
