-- ===== src/Tests/EditorRuns.antt =====
-- The theorems on the note editor, applied to a note with one change.
use kan_pad.Base.{◌≡◌, refl, inl, true, false, ◌∷◌, [], ◌+◌, none, some}
use kan_pad.Frontend.NoteEditor.{
  Draft, Editor, set_content, wait, settle, escape, auto_save, step, opened,
}
use kan_pad.Frontend.NoteEditor.Forgotten.{failed_auto_save-forgotten}

abbrev note : Draft
note = record {
  title = 97 ∷ [];
  content = [];
  tag_ids = [];
  board_id = none;
  project_id = none;
  card_id = none;
}

abbrev shown : Editor
shown = opened (some 1) note 0

abbrev changed : Editor
changed = step (set_content (98 ∷ [])) shown

abbrev sent : Editor
sent = record {
  note_id = some 1;
  draft = note;
  dirty = false;
  auto_saving = true;
  timer = none;
  pending = some auto_save;
  requests = note ∷ [];
  failures = 0;
  closed = false;
  now = 2500;
}

failed_auto_save-forgotten_example :
    (Editor.dirty (step (settle false) sent) ≡ false)
    × (Editor.failures (step (settle false) sent) ≡ 1)
    × (Editor.requests (step (wait 60000) (step (settle false) sent)) ≡ note ∷ [])
    × (Editor.closed (step (escape false) (step (settle false) sent)) ≡ true)
failed_auto_save-forgotten_example = failed_auto_save-forgotten sent 60000 refl refl
