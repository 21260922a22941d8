-- ===== src/Api/Reading.antt =====
-- The requests that only read.
use kan_pad.Base.{
  ℕ, ◌≡◌, refl, Bool, arith, Option, none, some, inl, inr, nonzero, Option-cases, ◌==◌,
}
use kan_pad.Api.{guarded, answered, user_of}
use kan_pad.Api.Accounts.{AuthAnswer, of_session, show_me, auth_controller}
use kan_pad.Api.Boards.{
  list_boards, list_archived, show_board, boards_controller, boards_in, project_number, is_true,
}
use kan_pad.Api.Cards.{list_cards, show_card, cards_controller}
use kan_pad.Api.Checklists.{show_checklist, checklists_controller}
use kan_pad.Api.Columns.{list_columns, columns_controller}
use kan_pad.Api.Notes.{list_notes, show_note, list_board_notes, notes_controller}
use kan_pad.Api.Projects.{list_projects, projects_controller}
use kan_pad.Api.Server.{
  Request, to_boards, to_columns, to_cards, to_checklists, to_projects, to_tags, to_notes, dispatch,
  serve,
}
use kan_pad.Api.Tags.{list_tags, tags_controller}
use kan_pad.Auth.Service.{AuthEnv}
use kan_pad.Auth.Session.{Session, me}
use kan_pad.Base.Int.{ℤ}
use kan_pad.Base.Text.{Text}
use kan_pad.Boards.{find_all_by_user_id, find_all_archived_by_user_id, find_one as find_board}
use kan_pad.Cards.Access.{find_card_by_id, find_column_by_id}
use kan_pad.Cards.Service.{find_all_by_column_id, find_by_id as find_card}
use kan_pad.Checklists.{
  find_by_id as find_checklist, find_checklist_by_id, find_checklist_by_id_with_items,
}
use kan_pad.Columns.Service.{find_all_by_board_id}
use kan_pad.Notes.Links.{
  check_board, check_card, check_linked_board, check_linked_project, check_access,
}
use kan_pad.Notes.Query.{ListNotesDto, find_all as find_notes}
use kan_pad.Notes.Service.{find_by_id as find_note, find_by_board_id}
use kan_pad.Projects.{find_all_by_user_id as find_projects}
use kan_pad.Store.Action.{Action, Result, ok, err, gets, ◌>>=◌, Result-cases}
use kan_pad.Store.Entities.{Db, Note}
use kan_pad.Store.Repository.{Orm}
use kan_pad.Tags.{find_all as find_tags}

-- the routes under `@Get` of the controllers behind the guard, but for the list of the labels, which
-- seeds them
pub data IsGet : Request → Type 0 where
  get_boards :
      (project_id archived : Option Text) → IsGet (to_boards (list_boards project_id archived))
  get_archived_boards : IsGet (to_boards list_archived)
  get_board : (id : ℕ) → IsGet (to_boards (show_board id))
  get_columns : (board_id : ℕ) → IsGet (to_columns (list_columns board_id))
  get_cards : (column_id : ℕ) → IsGet (to_cards (list_cards column_id))
  get_card : (id : ℕ) → IsGet (to_cards (show_card id))
  get_checklist : (id : ℕ) → IsGet (to_checklists (show_checklist id))
  get_projects : IsGet (to_projects list_projects)
  get_tags : IsGet (to_tags list_tags)
  get_notes : (query : ListNotesDto) → IsGet (to_notes (list_notes query))
  get_note : (id : ℕ) → IsGet (to_notes (show_note id))
  get_board_notes : (board_id : ℕ) → IsGet (to_notes (list_board_notes board_id))

-- The method leaves every table as it was, whether it returns or throws.
abbrev pub IsReading : {A : Type 0} → Action A → Type 0
IsReading m = (db : Db) → (m db).1 ≡ db

>>=-IsReading :
    {A B : Type 0} (m : Action A) (f : A → Action B)
    → IsReading m
    → ((a : A) → IsReading (f a))
    → IsReading (m >>= f)
>>=-IsReading m f h k db = elim (Result-cases (m db).0) [
  | inl (e, r) ↦ ground (arith, h db, r)
  | inr (a, r) ↦ ground (arith, h db, r, k a db)
]

answered-IsReading :
    {A B : Type 0} (f : A → B) (m : Action A) → IsReading m → IsReading (answered f m)
answered-IsReading f m h = >>=-IsReading m (λ a. gets (λ _. f a)) h (λ _ _. refl)

module _ (o : Orm) where
  pub find_board-IsReading : (id user_id : ℕ) → IsReading (find_board o id user_id)
  unfolding find_board
  find_board-IsReading id user_id db = ground arith

  find_all_by_board_id-IsReading : (id user_id : ℕ) → IsReading (find_all_by_board_id o id user_id)
  unfolding find_all_by_board_id
  find_all_by_board_id-IsReading id user_id db = ground arith

  pub find_column_by_id-IsReading : (id user_id : ℕ) → IsReading (find_column_by_id o id user_id)
  unfolding find_column_by_id
  find_column_by_id-IsReading id user_id db = ground arith

  find_all_by_column_id-IsReading :
      (id user_id : ℕ) → IsReading (find_all_by_column_id o id user_id)
  unfolding find_all_by_column_id
  find_all_by_column_id-IsReading id user_id db =
      ground (arith, find_column_by_id-IsReading id user_id db)

  find_card-IsReading : (id user_id : ℕ) → IsReading (find_card o id user_id)
  unfolding find_card find_card_by_id
  find_card-IsReading id user_id db = ground arith

  find_checklist-IsReading : (id user_id : ℕ) → IsReading (find_checklist o id user_id)
  unfolding find_checklist find_checklist_by_id_with_items find_checklist_by_id
  find_checklist-IsReading id user_id db = ground arith

  check_card-IsReading : (user_id id : ℕ) → IsReading (check_card o user_id id)
  unfolding check_card
  check_card-IsReading user_id id db = ground arith

  check_access-IsReading : (user_id : ℕ) (note : Note) → IsReading (check_access o user_id note)
  unfolding check_access check_linked_board check_linked_project
  check_access-IsReading user_id note db = elim (Option-cases (nonzero (Note.card_id note))) [
    | inl e ↦ ground (arith, e)
    | inr (i, e) ↦ ground (arith, e, check_card-IsReading user_id i db)
  ]

  find_note-IsReading : (id user_id : ℕ) → IsReading (find_note o id user_id)
  unfolding find_note
  find_note-IsReading id user_id db =
      elim (Option-cases (o.notes.find_one (λ n. Note.id n == id) db.notes)) [
        | inl e ↦ ground (arith, e)
        | inr (n, e) ↦ ground (arith, e, check_access-IsReading user_id n db)
      ]

  find_by_board_id-IsReading : (id user_id : ℕ) → IsReading (find_by_board_id o id user_id)
  unfolding find_by_board_id check_board
  find_by_board_id-IsReading id user_id db = ground arith

  pub boards_in-IsReading :
      (user_id : ℕ) (project_id : Option ℤ) (archived : Bool)
      → IsReading (boards_in o user_id project_id archived)
  unfolding find_all_by_user_id
  boards_in-IsReading user_id project_id archived db = ground arith

  dispatch-IsReading : (r : Request) (user_id : ℕ) → IsGet r → IsReading (dispatch o r user_id)
  unfolding dispatch boards_controller columns_controller cards_controller checklists_controller
      projects_controller tags_controller notes_controller find_all_archived_by_user_id
      find_projects find_tags find_notes
  dispatch-IsReading _ user_id (get_boards project_id archived) db =
      ground (arith, boards_in-IsReading user_id (project_number project_id) (is_true archived) db)
  dispatch-IsReading _ user_id get_archived_boards db = refl
  dispatch-IsReading _ user_id (get_board id) db =
      ground (arith, find_board-IsReading id user_id db)
  dispatch-IsReading _ user_id (get_columns board_id) db =
      ground (arith, find_all_by_board_id-IsReading board_id user_id db)
  dispatch-IsReading _ user_id (get_cards column_id) db =
      ground (arith, find_all_by_column_id-IsReading column_id user_id db)
  dispatch-IsReading _ user_id (get_card id) db = ground (arith, find_card-IsReading id user_id db)
  dispatch-IsReading _ user_id (get_checklist id) db =
      ground (arith, find_checklist-IsReading id user_id db)
  dispatch-IsReading _ user_id get_projects db = refl
  dispatch-IsReading _ user_id get_tags db = refl
  dispatch-IsReading _ user_id (get_notes query) db = refl
  dispatch-IsReading _ user_id (get_note id) db = ground (arith, find_note-IsReading id user_id db)
  dispatch-IsReading _ user_id (get_board_notes board_id) db =
      ground (arith, find_by_board_id-IsReading board_id user_id db)

serve_get-IsReading :
    (o : Orm) (session : Option Session) (r : Request)
    → IsGet r
    → (db : Db) → (serve o session r db).1 ≡ db
unfolding serve guarded
serve_get-IsReading o none r get db = ground arith
serve_get-IsReading o (some s) r get db = ground (arith, dispatch-IsReading o r (user_of s) get db)

show_me-reads :
    (o : Orm) (env : AuthEnv) (session : Session) (db : Db)
    → (a : Result AuthAnswer) × (auth_controller o env show_me session db ≡ (a, session, db))
unfolding auth_controller
show_me-reads o env session db = elim (Result-cases (me session)) [
  | inl (e, r) ↦ (err e, rw (auth_controller, r) refl)
  | inr (s, r) ↦ (ok (of_session s), rw (auth_controller, r) refl)
]

-- Every request under `@Get` to the controllers behind the guard, those of boards, columns, cards,
-- checklists, projects, tags, labels and notes, but for the list of the labels, leaves the tables as
-- they were, whatever the session and whatever the answer; and so does `me` of `AuthController`,
-- which leaves the session as it was too.
pub serve-IsReading :
    (o : Orm) (env : AuthEnv) (session : Option Session) (r : Request)
    → IsGet r
    → (own : Session) (db : Db)
    → ((serve o session r db).1 ≡ db)
      × ((a : Result AuthAnswer) × (auth_controller o env show_me own db ≡ (a, own, db)))
serve-IsReading o env session r get own db =
    (serve_get-IsReading o session r get db, show_me-reads o env own db)
