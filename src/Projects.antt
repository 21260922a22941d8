-- ===== src/Projects.antt =====
-- backend/src/projects/projects.service.ts: `ProjectsService`, method by method.
pub mod Removal
use kan_pad.Base.{ℕ, Bool, ◌&&◌, List, map, Option, length, get_or, ◌==◌}
use kan_pad.Base.Int.{pos}
use kan_pad.Base.Text.{Text}
use kan_pad.Store.Action.{
  Action, ok, not_found, gets, pure, throw_if, or_throw, modify, ◌>>=◌, ◌>>◌,
}
use kan_pad.Store.Cascade.{cascade_projects}
use kan_pad.Store.Entities.{Project}
use kan_pad.Store.Repository.{Orm, desc}

pub record CreateProjectDto : Type 0 where
  pub name : Text

pub record UpdateProjectDto : Type 0 where
  pub name : Option Text

module _ (o : Orm) where
  unfoldable pub find_all_by_user_id : ℕ → Action (List Project)
  find_all_by_user_id user_id = gets (λ db.
      o.projects.find_ordered desc (λ p. pos (Project.created_at p))
        (λ p. Project.user_id p == user_id) db.projects)

  abbrev is_own : ℕ → ℕ → Project → Bool
  is_own id user_id p = p.id == id && p.user_id == user_id

  unfoldable pub find_one : ℕ → ℕ → Action Project
  find_one id user_id =
      gets (λ db. o.projects.find_one (is_own id user_id) db.projects)
      >>= or_throw (not_found "Project not found")

  unfoldable pub create : ℕ → CreateProjectDto → Action Project
  create user_id dto db =
      let (project, projects) =
        o.projects.insert
          (λ g. record { id = g.id; name = dto.name; user_id = user_id; created_at = g.created_at })
          db.projects in
      (ok project, record db { projects = projects })

  unfoldable pub update : ℕ → ℕ → UpdateProjectDto → Action Project
  update id user_id dto = do
    project ← find_one id user_id
    let changed = record project { name = get_or dto.name project.name }
    modify (λ db. record db { projects = o.projects.save changed db.projects })
    pure changed

  -- `delete({ id, user_id })` answers how many rows it met.
  unfoldable pub remove : ℕ → ℕ → Action (Unit {0})
  remove id user_id = do
    gone ← gets (λ db. o.projects.delete (is_own id user_id) db.projects)
    modify (λ db. cascade_projects (map Project.id gone.0) (record db { projects = gone.1 }))
    throw_if (not_found "Project not found") (length gone.0 == 0)
