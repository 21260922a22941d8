-- ===== src/Tests/MoreRuns.antt =====
-- The theorems on the other services, applied to the small database.
use kan_pad.Base.{true, ℕ, ◌≡◌, refl, inl, inr, arith, false, [], ◌∷◌, none, some, map, any, ◌==◌}
use kan_pad.Base.Int.{pos}
use kan_pad.Base.Text.{codes, text_eq, trim}
use kan_pad.Auth.RoundTrip.{register-login}
use kan_pad.Auth.Service.{
  AuthEnv, RegisterDto, UserInfo, is_registration_enabled, normalize, create_user, register_user,
  register, login,
}
use kan_pad.Auth.Session.{Value, Session}
use kan_pad.Boards.{CreateBoardDto, create, archive, restore, remove, permanent_delete}
use kan_pad.Boards.Creation.{columns_of, name_and_position, create-columns}
use kan_pad.Boards.Lifecycle.{archive-restore}
use kan_pad.Boards.Removal.{IsTaken, remove-IsRooted}
use kan_pad.Checklists.{CreateChecklistItemDto}
use kan_pad.Labels.{insert_labels, seed_default_labels, CreateLabelDto, UpdateLabelDto}
use kan_pad.Labels.Names.{IsNamed, create-IsNamed}
use kan_pad.Notes.Foreign.{link_to, update-foreign}
use kan_pad.Notes.Service.{find_by_id}
use kan_pad.Store.Action.{ok, err, forbidden, ◌>>◌}
use kan_pad.Store.Distinct.{same_id}
use kan_pad.Store.Repository.Documented.{replace}
use kan_pad.Store.Entities.{Board, BoardColumn, Color, Db}
use kan_pad.Store.Rooted.{IsRooted}
use kan_pad.Summary.{CardSummary, attach_card_list_enrichments}
use kan_pad.Summary.Enriched.{enriched, attach_card_list_enrichments-enriched}
use kan_pad.Users.{find_by_email}
use kan_pad.Tests.World.{engine, engine-IsLawful, world, world-IsKeyed, card_at, board_at, note_at}

-- bcrypt with the identity for a hash, and addresses in lower case
abbrev environment : AuthEnv
environment = record {
  hash = λ salt rounds password. password;
  compare = text_eq;
  to_lower_case = λ t. t;
  registration_enabled = none;
}

abbrev nobody : Session
nobody = record { user_id = Value.undefined; email = Value.undefined; role = Value.undefined }

world-IsRooted : IsRooted world
world-IsRooted = record {
  columns = λ c m h. ground arith;
  cards = λ c m h. ground arith;
  checklists = λ c m h. ground arith;
  card_labels = λ c m h. ground arith;
  labels = λ c m h. ground arith;
  checklist_items = λ c m h. ground arith;
}

world-IsNamed : IsNamed engine world
world-IsNamed l m ml mm u c = ground arith

create-IsNamed_example :
    IsNamed engine
      (kan_pad.Labels.create engine 1 (record { name = 3 ∷ []; color = Color.red }) world).1
create-IsNamed_example =
    create-IsNamed engine engine-IsLawful world world-IsNamed 1
      (record { name = 3 ∷ []; color = Color.red })

archive-restore_example :
    (archive engine 1 1 world ≡ (
      ok (record (board_at 1 1) { is_archived = true }),
      record world {
        boards =
            replace (same_id Board.id) (record (board_at 1 1) { is_archived = true }) world.boards;
      },
    ))
    × ((archive engine 1 1 >> restore engine 1 1) world ≡ (ok (board_at 1 1), world))
archive-restore_example =
    archive-restore engine engine-IsLawful world world-IsKeyed (board_at 1 1) (inl refl) refl

remove-IsRooted_example :
    IsRooted (remove engine 1 1 world).1
    × IsRooted (permanent_delete engine 1 1 world).1
    × IsTaken engine engine-IsLawful world world-IsRooted 1 1
remove-IsRooted_example = remove-IsRooted engine engine-IsLawful world world-IsRooted 1 1

update-foreign_example :
    (kan_pad.Notes.Service.update engine 1 1 (link_to 2) world ≡ (
      ok (record (note_at 1 1) { board_id = some 2 }),
      record world { notes = record (note_at 1 1) { board_id = some 2 } ∷ [] },
    ))
    × (find_by_id engine 1 1
          (record world { notes = record (note_at 1 1) { board_id = some 2 } ∷ [] })
        ≡ (
          err (forbidden "Access denied"),
          record world { notes = record (note_at 1 1) { board_id = some 2 } ∷ [] },
        ))
    × (find_by_id engine 1 2
          (record world { notes = record (note_at 1 1) { board_id = some 2 } ∷ [] })
        ≡ (
          ok (record (note_at 1 1) { board_id = some 2 }),
          record world { notes = record (note_at 1 1) { board_id = some 2 } ∷ [] },
        ))
update-foreign_example =
    update-foreign engine engine-IsLawful world world-IsKeyed (note_at 1 1) (board_at 2 2)
      (inl refl) (inr (inl refl)) refl refl refl (omega arith) (omega arith)

abbrev summary_at : ℕ → CardSummary
summary_at i = record {
  card = card_at i 1 0;
  labels = [];
  has_description = false;
  checklist_progress = none;
}

attach_card_list_enrichments-enriched_example :
    attach_card_list_enrichments engine world (summary_at 1 ∷ summary_at 2 ∷ [])
    ≡ map (enriched engine world) (summary_at 1 ∷ summary_at 2 ∷ [])
attach_card_list_enrichments-enriched_example =
    attach_card_list_enrichments-enriched engine engine-IsLawful world world-IsKeyed.cards
      (summary_at 1 ∷ summary_at 2 ∷ [])

abbrev new_item : CreateChecklistItemDto
new_item = record { text = 5 ∷ []; position = none }

abbrev new_board : CreateBoardDto
new_board = record { name = 7 ∷ []; background_color = none; project_id = none }

world_no_orphans :
    (i : ℕ)
    → any (λ b. Board.id b == i) world.boards ≡ false
    → any (λ c. BoardColumn.board_id c == i) world.columns ≡ false
world_no_orphans i h = ground arith

create-columns_example :
    (board : Board) × (any (λ b. Board.id b == board.id) world.boards ≡ false)
    × (board.user_id ≡ 1)
    × (board.is_archived ≡ false)
    × (board.name ≡ 7 ∷ [])
    × ((create engine 1 new_board world).0 ≡ ok board)
    × (map name_and_position (columns_of board.id (create engine 1 new_board world).1)
        ≡ (codes "To Do", pos 0) ∷ (codes "In Progress", pos 1) ∷ (codes "Done", pos 2) ∷ [])
create-columns_example = create-columns engine engine-IsLawful world world_no_orphans 1 new_board

abbrev joining : RegisterDto
joining = record { email = 97 ∷ []; password = 98 ∷ [] }

abbrev joined : UserInfo
joined = record { id = 4; email = 97 ∷ []; role = codes "user" }

abbrev world_joined : Db
world_joined = (register engine environment 0 joining nobody world).2

registered :
    register engine environment 0 joining nobody world
    ≡ (ok joined, (register engine environment 0 joining nobody world).1, world_joined)
unfolding register register_user is_registration_enabled normalize trim find_by_email create_user
    kan_pad.Users.create seed_default_labels insert_labels text_eq
registered = refl

register-login_example :
    login engine environment (record { email = 97 ∷ []; password = 98 ∷ [] }) nobody world_joined
    ≡ (ok joined, (register engine environment 0 joining nobody world).1, world_joined)
unfolding text_eq
register-login_example =
    register-login engine engine-IsLawful environment 0 joining nobody
      (register engine environment 0 joining nobody world).1 joined world world_joined refl
      registered nobody
