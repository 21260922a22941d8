-- ===== src/Tests/ApiRuns.antt =====
-- The theorems on requests, applied to the small database.
use kan_pad.Base.{
  ℕ, suc, true, false, ◌≡◌, ◌≢◌, refl, inl, inr, arith, ◌⊎◌, Member, [], ◌∷◌, none, some, Option,
}
use kan_pad.Base.Int.{pos}
use kan_pad.Base.Text.{codes, text_eq, trim}
use kan_pad.Api.Accounts.{AuthAnswer, show_me, sign_in, of_user, auth_controller}
use kan_pad.Api.Admitted.{serve-cases, auth_controller-serve}
use kan_pad.Api.{single}
use kan_pad.Api.Foreign.{create_board-project}
use kan_pad.Boards.{CreateBoardDto}
use kan_pad.Api.Boards.{create_board, delete_board, boards_controller}
use kan_pad.Api.Cards.{show_card, delete_card}
use kan_pad.Api.Content.{BoardResponse, to_card_response, to_card_summary_response}
use kan_pad.Api.Content.Counted.{detail-list-progress}
use kan_pad.Api.Isolation.{boards_controller-others}
use kan_pad.Api.Reading.{get_card, serve-IsReading}
use kan_pad.Api.Server.{to_cards, serve, dispatch}
use kan_pad.Auth.Service.{AuthEnv, UserInfo, login, login_user, normalize, session_of}
use kan_pad.Auth.Session.{Session, Value, number}
use kan_pad.Cards.Access.{find_card_by_id, find_column_by_id}
use kan_pad.Cards.Service.{CardDetail, find_by_id, find_all_by_column_id}
use kan_pad.Store.Action.{Result, ok, err, unauthorized}
use kan_pad.Store.Entities.{Project, Db}
use kan_pad.Summary.{CardSummary, Progress}
use kan_pad.Tests.World.{
  engine, engine-IsLawful, world, world-IsKeyed, board_at, card_at, label_at, checklist_at, item_at,
  user_at,
}
use kan_pad.Users.{find_by_email}

abbrev of_first : Session
of_first = session_of (user_at 1)

boards_controller-others_example :
    Member (board_at 2 2) (Db.boards (boards_controller engine (delete_board 2) 1 world).1)
boards_controller-others_example =
    boards_controller-others engine engine-IsLawful world world-IsKeyed (board_at 2 2)
      (inr (inl refl)) (delete_board 2) 1 (omega arith)

serve-cases_example :
    (serve engine (some of_first) (to_cards (delete_card 1)) world
      ≡ (err (unauthorized "Unauthorized"), world))
    ⊎ ((s : Session) × (n : ℕ) × (some of_first ≡ some s)
        × (s.user_id ≡ number (pos (suc n)))
        × (serve engine (some of_first) (to_cards (delete_card 1)) world
            ≡ dispatch engine (to_cards (delete_card 1)) (suc n) world))
serve-cases_example = serve-cases engine (some of_first) (to_cards (delete_card 1)) world

-- a host whose hash is the password, which `user_at` leaves empty
abbrev open_host : AuthEnv
open_host = record {
  hash = λ salt rounds password. password;
  compare = λ password hash. text_eq password hash;
  to_lower_case = λ text. text;
  registration_enabled = none;
}

abbrev nobody : Session
nobody = record { user_id = Value.undefined; email = Value.undefined; role = Value.undefined }

abbrev second_info : UserInfo
second_info = record { id = 2; email = 2 ∷ []; role = [] }

signed_in :
    auth_controller engine open_host
      (sign_in (record { email = 2 ∷ []; password = [] }))
      nobody
      world
    ≡ (ok (of_user second_info (codes "Login successful")), session_of (user_at 2), world)
unfolding auth_controller login login_user find_by_email normalize trim text_eq
signed_in = refl

auth_controller-serve_example :
    serve engine (some (session_of (user_at 2))) (to_cards (delete_card 1)) world
    ≡ dispatch engine (to_cards (delete_card 1)) 2 world
auth_controller-serve_example =
    auth_controller-serve engine open_host (sign_in (record { email = 2 ∷ []; password = [] }))
      nobody (session_of (user_at 2)) world world second_info (codes "Login successful") signed_in
      (omega arith) (to_cards (delete_card 1)) world

serve-IsReading_example :
    ((serve engine (some of_first) (to_cards (show_card 1)) world).1 ≡ world)
    × ((a : Result AuthAnswer) × (auth_controller engine open_host show_me of_first world
          ≡ (a, of_first, world)))
serve-IsReading_example =
    serve-IsReading engine open_host (some of_first) (to_cards (show_card 1)) (get_card 1) of_first
      world

abbrev half_done : Option Progress
half_done = some (record { completed = 1; total = 2; percent = 1 })

abbrev first_detail : CardDetail
first_detail = record {
  card = card_at 1 1 0;
  labels = label_at 1 1 ∷ [];
  checklists = (checklist_at 1 1, item_at 1 0 true ∷ item_at 2 1 false ∷ []) ∷ [];
}

shown : (find_by_id engine 1 1 world).0 ≡ ok first_detail
unfolding find_by_id find_card_by_id kan_pad.Summary.labels_of
shown = refl

abbrev first_summary : CardSummary
first_summary = record {
  card = card_at 1 1 0;
  labels = label_at 1 1 ∷ [];
  has_description = false;
  checklist_progress = half_done;
}

abbrev second_summary : CardSummary
second_summary = record {
  card = card_at 2 1 1;
  labels = [];
  has_description = false;
  checklist_progress = none;
}

listed : (find_all_by_column_id engine 1 1 world).0 ≡ ok (first_summary ∷ second_summary ∷ [])
unfolding find_all_by_column_id find_column_by_id kan_pad.Summary.attach_card_list_enrichments
    kan_pad.Summary.attach_checklist_progress kan_pad.Summary.attach_description_flags
    kan_pad.Summary.summary_row kan_pad.Summary.labels_of kan_pad.Summary.progress_rows
    kan_pad.Summary.progress_row kan_pad.Summary.progress_map kan_pad.Summary.set_progress
    kan_pad.Summary.to_progress kan_pad.Summary.set_flag kan_pad.Summary.flag_map
    kan_pad.Summary.description_flag kan_pad.Summary.checklists_of kan_pad.Summary.items_in
    kan_pad.Base.JsMap.map_get kan_pad.Base.JsMap.map_set
listed = refl

detail-list-progress_example :
    (to_card_summary_response first_summary).checklist_progress
    ≡ (to_card_response engine first_detail).checklist_progress
detail-list-progress_example =
    detail-list-progress engine engine-IsLawful world 1 1 (first_summary ∷ second_summary ∷ [])
      first_summary 1 1 first_detail world-IsKeyed.cards listed (inl refl) shown refl

abbrev board_in_project : CreateBoardDto
board_in_project = record { name = 7 ∷ []; background_color = none; project_id = some 1 }

abbrev first_project : Project
first_project = record { id = 1; name = []; user_id = 1; created_at = 0 }

create_board-project_example :
    (response : BoardResponse) × ((boards_controller engine
        (create_board board_in_project)
        2
        world).0
      ≡ ok (record {
        content = single response;
        message = some (codes "Board created successfully");
      }))
    × (response.project ≡ some (record { id = 1; name = [] }))
create_board-project_example =
    create_board-project engine engine-IsLawful world world-IsKeyed 2 board_in_project first_project
      (inl refl) (omega arith) refl
