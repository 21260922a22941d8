-- ===== src/Api/Notes.antt =====
-- backend/src/notes/notes.controller.ts.
use kan_pad.Base.{ℕ}
use kan_pad.Base.Text.{codes}
use kan_pad.Api.{Reply, many, single, nothing, answers, answers_with}
use kan_pad.Notes.Query.{ListNotesDto, find_all}
use kan_pad.Notes.Service.{
  CreateNoteDto, UpdateNoteDto, create, find_by_board_id, find_by_id, update, remove,
}
use kan_pad.Store.Action.{Action, ◌>>=◌, ◌>>◌}
use kan_pad.Store.Entities.{Note}
use kan_pad.Store.Repository.{Orm}

-- the routes of `NotesController`
pub data NotesRequest : Type 0 where
  list_notes : ListNotesDto → NotesRequest
  create_note : CreateNoteDto → NotesRequest
  show_note : ℕ → NotesRequest
  update_note : ℕ → UpdateNoteDto → NotesRequest
  delete_note : ℕ → NotesRequest
  list_board_notes : ℕ → NotesRequest

module _ (o : Orm) where
  -- `toNoteResponse` keeps every field; the tags stand as their ids.
  unfoldable pub notes_controller : NotesRequest → ℕ → Action (Reply Note)
  notes_controller (list_notes query) user_id = do
    notes ← find_all o user_id query
    answers (many notes)
  notes_controller (create_note dto) user_id = do
    note ← create o user_id dto
    answers_with (codes "Note created") (single note)
  notes_controller (show_note id) user_id = do note ← find_by_id o id user_id; answers (single note)
  notes_controller (update_note id dto) user_id = do
    note ← update o id user_id dto
    answers_with (codes "Note updated") (single note)
  notes_controller (delete_note id) user_id = do
    remove o id user_id
    answers_with (codes "Note deleted") nothing
  notes_controller (list_board_notes board_id) user_id = do
    notes ← find_by_board_id o board_id user_id
    answers (many notes)
