-- ===== src/Api/Server.antt =====
-- The controllers behind the guard: a request, its handler and its answer.
use kan_pad.Base.{ℕ, Option}
use kan_pad.Api.{Reply, guarded, answered}
use kan_pad.Api.Content.{BoardResponse, ProjectResponse}
use kan_pad.Api.Boards.{BoardsRequest, boards_controller}
use kan_pad.Api.Columns.{ColumnsRequest, ColumnsAnswer, columns_controller}
use kan_pad.Api.Cards.{CardsRequest, CardsAnswer, cards_controller}
use kan_pad.Api.Checklists.{ChecklistsRequest, ChecklistsAnswer, checklists_controller}
use kan_pad.Api.Projects.{ProjectsRequest, projects_controller}
use kan_pad.Api.Tags.{TagsRequest, tags_controller}
use kan_pad.Api.Labels.{LabelsRequest, labels_controller}
use kan_pad.Api.Notes.{NotesRequest, notes_controller}
use kan_pad.Auth.Session.{Session}
use kan_pad.Store.Action.{Action}
use kan_pad.Store.Entities.{Tag, Label, Note}
use kan_pad.Store.Repository.{Orm}

pub data Request : Type 0 where
  to_boards : BoardsRequest → Request
  to_columns : ColumnsRequest → Request
  to_cards : CardsRequest → Request
  to_checklists : ChecklistsRequest → Request
  to_projects : ProjectsRequest → Request
  to_tags : TagsRequest → Request
  to_labels : LabelsRequest → Request
  to_notes : NotesRequest → Request

pub data Answer : Type 0 where
  from_boards : Reply BoardResponse → Answer
  from_columns : ColumnsAnswer → Answer
  from_cards : CardsAnswer → Answer
  from_checklists : ChecklistsAnswer → Answer
  from_projects : Reply ProjectResponse → Answer
  from_tags : Reply Tag → Answer
  from_labels : Reply Label → Answer
  from_notes : Reply Note → Answer

module _ (o : Orm) where
  -- the handler of a request, for the user of the session
  unfoldable pub dispatch : Request → ℕ → Action Answer
  unfolding boards_controller columns_controller cards_controller checklists_controller
      projects_controller tags_controller labels_controller notes_controller
  dispatch (to_boards r) user_id = answered from_boards (boards_controller o r user_id)
  dispatch (to_columns r) user_id = answered from_columns (columns_controller o r user_id)
  dispatch (to_cards r) user_id = answered from_cards (cards_controller o r user_id)
  dispatch (to_checklists r) user_id = answered from_checklists (checklists_controller o r user_id)
  dispatch (to_projects r) user_id = answered from_projects (projects_controller o r user_id)
  dispatch (to_tags r) user_id = answered from_tags (tags_controller o r user_id)
  dispatch (to_labels r) user_id = answered from_labels (labels_controller o r user_id)
  dispatch (to_notes r) user_id = answered from_notes (notes_controller o r user_id)

  unfoldable pub serve : Option Session → Request → Action Answer
  unfolding guarded dispatch
  serve session request = guarded session (dispatch request)
