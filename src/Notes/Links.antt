-- ===== src/Notes/Links.antt =====
-- backend/src/notes/notes.service.ts: the checks on tags and on what a note is linked to.
use kan_pad.Base.{ℕ, not, List, [], ◌∷◌, Option, none, some, select, nonzero, ◌==◌}
use kan_pad.Store.Action.{
  Action, not_found, forbidden, gets, pure, throw_if, or_throw, for_each, ◌>>=◌, ◌>>◌,
}
use kan_pad.Store.Cascade.{is_in}
use kan_pad.Store.Entities.{Project, Board, BoardColumn, Card, Tag, Note}
use kan_pad.Store.Relations.{board_at, project_at, card_at, column_at}
use kan_pad.Store.Repository.{Orm}

-- `[...new Set(ids)]`: the first of each, in order
unfoldable pub add_new : ℕ → List ℕ → List ℕ
add_new i seen = i ∷ select (λ j. not (j == i)) seen

unfoldable pub unique : List ℕ → List ℕ
unique [] = []
unique (i ∷ is) = add_new i (unique is)

module _ (o : Orm) where
  -- `for (const tag of tags) {if (tag.user_id !== userId) throw …}`; the message names the tag
  unfoldable pub check_tags : ℕ → List Tag → Action (Unit {0})
  check_tags user_id tags =
      for_each tags (λ tag.
        throw_if (forbidden "Tag does not belong to user") (not (Tag.user_id tag == user_id)))

  -- `tagRepository.findBy({id: In(ids)})`
  abbrev pub tags_in : List ℕ → Action (List Tag)
  tags_in ids = gets (λ db. o.tags.find (λ t. is_in ids (Tag.id t)) db.tags)

  -- `let tags = []; if (dto.tagIds && dto.tagIds.length > 0) {…}` of `create`
  unfoldable pub find_tags : ℕ → Option (List ℕ) → Action (List Tag)
  find_tags user_id none = gets (λ _. [])
  find_tags user_id (some []) = gets (λ _. [])
  find_tags user_id (some (i ∷ is)) = do tags ← tags_in (i ∷ is); check_tags user_id tags; pure tags

  unfoldable pub check_board : ℕ → ℕ → Action (Unit {0})
  check_board user_id id = do
    linked_board ← board_at o id >>= or_throw (not_found "Board not found")
    throw_if (forbidden "Access denied") (not (Board.user_id linked_board == user_id))

  unfoldable pub check_project : ℕ → ℕ → Action (Unit {0})
  check_project user_id id = do
    linked_project ← project_at o id >>= or_throw (not_found "Project not found")
    throw_if (forbidden "Access denied") (not (Project.user_id linked_project == user_id))

  -- `card?.column?.board` missing at any link is the same exception
  unfoldable pub check_card : ℕ → ℕ → Action (Unit {0})
  check_card user_id id = do
    linked_card ← card_at o id >>= or_throw (not_found "Card board not found")
    column ←
        column_at o (Card.column_id linked_card) >>= or_throw (not_found "Card board not found")
    linked_board ←
        board_at o (BoardColumn.board_id column) >>= or_throw (not_found "Card board not found")
    throw_if (forbidden "Access denied") (not (Board.user_id linked_board == user_id))

  -- the checks of `findById`: a note is reached through what it is linked to
  unfoldable pub check_linked_board : ℕ → ℕ → Action (Unit {0})
  check_linked_board user_id id = do
    linked_board ← board_at o id >>= or_throw (not_found "Linked board not found")
    throw_if (forbidden "Access denied") (not (Board.user_id linked_board == user_id))

  unfoldable pub check_linked_project : ℕ → ℕ → Action (Unit {0})
  check_linked_project user_id id = do
    linked_project ← project_at o id >>= or_throw (forbidden "Access denied")
    throw_if (forbidden "Access denied") (not (Project.user_id linked_project == user_id))

  unfoldable pub check_access : ℕ → Note → Action (Unit {0})
  check_access user_id note = elim (nonzero (Note.board_id note)) [
    | some i ↦ check_linked_board user_id i
    | none ↦ elim (nonzero (Note.project_id note)) [
      | some i ↦ check_linked_project user_id i
      | none ↦ elim (nonzero (Note.card_id note)) [
        | some i ↦ check_card user_id i
        | none ↦ throw_if (forbidden "Access denied") (not (Note.user_id note == user_id))
      ]
    ]
  ]
