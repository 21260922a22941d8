-- ===== src/Api/Projects.antt =====
-- backend/src/projects/projects.controller.ts.
use kan_pad.Base.{ℕ, map, none, some, Bool, true}
use kan_pad.Base.Text.{codes}
use kan_pad.Api.{Reply, many, single, nothing, answers, answers_with}
use kan_pad.Base.Text.{is_empty}
use kan_pad.Api.Content.{ProjectResponse, to_project_response}
use kan_pad.Projects.{
  CreateProjectDto, UpdateProjectDto, find_all_by_user_id, create, update, remove,
}
use kan_pad.Store.Action.{Action, bad_request, throw_if, ◌>>=◌, ◌>>◌}
use kan_pad.Store.Repository.{Orm}

-- the routes of `ProjectsController`
pub data ProjectsRequest : Type 0 where
  list_projects : ProjectsRequest
  create_project : CreateProjectDto → ProjectsRequest
  update_project : ℕ → UpdateProjectDto → ProjectsRequest
  delete_project : ℕ → ProjectsRequest

-- `!dto.name`
abbrev pub lacks_name : UpdateProjectDto → Bool
lacks_name dto = elim (UpdateProjectDto.name dto) [ none ↦ true | some name ↦ is_empty name ]

module _ (o : Orm) where
  -- `total` is the length of the list
  unfoldable pub projects_controller : ProjectsRequest → ℕ → Action (Reply ProjectResponse)
  unfolding to_project_response
  projects_controller list_projects user_id = do
    projects ← find_all_by_user_id o user_id
    answers (many (map to_project_response projects))
  projects_controller (create_project dto) user_id = do
    project ← create o user_id dto
    answers_with (codes "Project created") (single (to_project_response project))
  projects_controller (update_project id dto) user_id = do
    throw_if (bad_request "At least one field must be provided") (lacks_name dto)
    project ← update o id user_id dto
    answers_with (codes "Project updated") (single (to_project_response project))
  projects_controller (delete_project id) user_id = do
    remove o id user_id
    answers_with (codes "Project deleted") nothing
