-- ===== src/Notes/Query.antt =====
-- backend/src/notes/notes.service.ts, `findAll`: the conditions, the joined tags and the page.
use kan_pad.Base.{
  ℕ, Bool, true, false, not, ◌&&◌, List, map, Option, none, some, select, get_or, nonzero, is_some,
  ◌==◌, if◌then◌else◌,
}
use kan_pad.Base.Int.{ℤ, pos, ◌-ℤ◌, ◌*ℤ◌, min_ℤ}
use kan_pad.Base.Text.{Text, is_empty}
use kan_pad.Store.Action.{Action, gets}
use kan_pad.Store.Cascade.{is_in}
use kan_pad.Store.Entities.{Note}
use kan_pad.Store.Repository.{Orm}

pub data NoteType : Type 0 where
  general board project card : NoteType

pub record ListNotesDto : Type 0 where
  pub search : Option Text
  pub type : Option NoteType
  pub tag_id : Option ℕ
  pub board_id : Option ℕ
  pub page : Option ℤ
  pub limit : Option ℤ

-- `if (query.search) …`
unfoldable pub matches_search : Orm → Option Text → Note → Bool
matches_search o none n = true
matches_search o (some search) n = if is_empty search then true else o.is_like search (Note.title n)

unfoldable pub matches_type : Option NoteType → Note → Bool
matches_type none n = true
matches_type (some NoteType.board) n = is_some n.board_id
matches_type (some NoteType.project) n = is_some n.project_id
matches_type (some NoteType.card) n = is_some n.card_id
matches_type (some NoteType.general) n =
    not (is_some n.board_id) && not (is_some n.project_id) && not (is_some n.card_id)

abbrev pub is_some_of : Option ℕ → ℕ → Bool
is_some_of none i = false
is_some_of (some j) i = j == i

-- `if (query.tagId) …`, on the joined tags
unfoldable pub matches_tag : Option ℕ → Note → Bool
matches_tag tag_id n = elim (nonzero tag_id) [ none ↦ true | some i ↦ is_in (Note.tag_ids n) i ]

unfoldable pub matches_board : Option ℕ → Note → Bool
matches_board board_id n = elim (nonzero board_id) [
  | none ↦ true
  | some i ↦ is_some_of (Note.board_id n) i
]

-- the `where` that `findAll` builds
unfoldable pub matches : Orm → ℕ → ListNotesDto → Note → Bool
matches o user_id query n =
    n.user_id == user_id
    && matches_search o query.search n
    && matches_type query.type n
    && matches_tag query.tag_id n
    && matches_board query.board_id n

-- A condition on the joined tags leaves only the tags that meet it.
unfoldable pub joined_tags : Option ℕ → Note → Note
joined_tags tag_id n = elim (nonzero tag_id) [
  | none ↦ n
  | some i ↦ record n { tag_ids = select (λ t. t == i) (Note.tag_ids n) }
]

module _ (o : Orm) where
  abbrev pub limit_of : ListNotesDto → ℤ
  limit_of query = min_ℤ (get_or query.limit (pos 50)) (pos 100)

  unfoldable pub find_all : ℕ → ListNotesDto → Action (List Note)
  find_all user_id query = gets (λ db. map (joined_tags query.tag_id) (
      o.notes.find_page (limit_of query) ((get_or query.page (pos 1) -ℤ pos 1) *ℤ limit_of query)
        (matches o user_id query) db.notes))
