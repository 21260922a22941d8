-- ===== src/Notes/Service.antt =====
-- backend/src/notes/notes.service.ts: the methods of `NotesService` but for `findAll`.
use kan_pad.Base.{ℕ, not, List, [], ◌∷◌, map, Option, none, some, length, get_or, ◌==◌}
use kan_pad.Base.Text.{Text}
use kan_pad.Store.Action.{
  Action, ok, not_found, gets, pure, throw_if, or_throw, modify, when_some, ◌>>=◌, ◌>>◌,
}
use kan_pad.Store.Entities.{Board, Tag, Note}
use kan_pad.Store.Relations.{note_at}
use kan_pad.Store.Repository.{Orm}
use kan_pad.Notes.Query.{is_some_of}
use kan_pad.Notes.Links.{
  unique, find_tags, tags_in, check_board, check_project, check_card, check_access, check_tags,
}

-- class `CreateNoteDto`; `null` and `undefined` act alike
pub record CreateNoteDto : Type 0 where
  pub title : Text
  pub content : Text
  pub board_id : Option ℕ
  pub project_id : Option ℕ
  pub card_id : Option ℕ
  pub tag_ids : Option (List ℕ)

-- class `UpdateNoteDto`; of the nullable fields `some none` is `null`
pub record UpdateNoteDto : Type 0 where
  pub title : Option Text
  pub content : Option Text
  pub board_id : Option (Option ℕ)
  pub project_id : Option (Option ℕ)
  pub card_id : Option (Option ℕ)
  pub tag_ids : Option (List ℕ)

module _ (o : Orm) where
  abbrev insert_note : ℕ → CreateNoteDto → List Tag → Action Note
  insert_note user_id dto tags db =
      let (note, notes) =
        o.notes.insert
          (λ g. record {
            id = g.id;
            title = dto.title;
            content = dto.content;
            board_id = dto.board_id;
            project_id = dto.project_id;
            card_id = dto.card_id;
            user_id = user_id;
            tag_ids = map Tag.id tags;
          })
          db.notes in
      (ok note, record db { notes = notes })

  unfoldable pub create : ℕ → CreateNoteDto → Action Note
  create user_id dto = do
    tags ← find_tags o user_id dto.tag_ids
    when_some dto.board_id (check_board o user_id)
    when_some dto.project_id (check_project o user_id)
    when_some dto.card_id (check_card o user_id)
    insert_note user_id dto tags

  unfoldable pub find_by_board_id : ℕ → ℕ → Action (List Note)
  find_by_board_id board_id user_id = do
    check_board o user_id board_id
    gets (λ db. o.notes.find (λ n. is_some_of (Note.board_id n) board_id) db.notes)

  unfoldable pub find_by_id : ℕ → ℕ → Action Note
  find_by_id id user_id = do
    note ← note_at o id >>= or_throw (not_found "Note not found")
    check_access o user_id note
    pure note

  -- the branch of `update` on `dto.tagIds`: the tags that the note is to have
  unfoldable pub choose_tags : ℕ → Note → Option (List ℕ) → Action (List ℕ)
  choose_tags user_id note none = gets (λ _. note.tag_ids)
  choose_tags user_id note (some []) = gets (λ _. [])
  choose_tags user_id note (some (i ∷ is)) = do
    let ids = unique (i ∷ is)
    tags ← tags_in o ids
    throw_if (not_found "Some tags not found") (not (length tags == length ids))
    check_tags o user_id tags
    gets (λ _. map Tag.id tags)

  -- the relation `board` that `findById` loads with the note, by its id
  unfoldable pub loaded_board : Note → Action (Option ℕ)
  loaded_board note = gets (λ db. elim (Note.board_id note) [
    | none ↦ none
    | some i ↦ elim (o.boards.find_one (λ b. Board.id b == i) db.boards) [
      | none ↦ none
      | some b ↦ some (Board.id b)
    ]
  ])

  -- The relation `board` stays as it was loaded when `board_id` changes.
  unfoldable pub update : ℕ → ℕ → UpdateNoteDto → Action Note
  update id user_id dto = do
    note ← find_by_id id user_id
    board_key ← loaded_board note
    tag_ids ← choose_tags user_id note dto.tag_ids
    let changed = record note {
      title = get_or dto.title note.title;
      content = get_or dto.content note.content;
      board_id = get_or dto.board_id note.board_id;
      project_id = get_or dto.project_id note.project_id;
      card_id = get_or dto.card_id note.card_id;
      tag_ids = tag_ids;
    }
    let stored = record changed { board_id = o.foreign_key board_key changed.board_id }
    modify (λ db. record db { notes = o.notes.save stored db.notes })
    pure changed

  unfoldable pub remove : ℕ → ℕ → Action (Unit {0})
  remove id user_id = do
    note ← find_by_id id user_id
    modify (λ db. record db { notes = o.notes.remove note db.notes })
