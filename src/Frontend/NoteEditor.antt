-- ===== src/Frontend/NoteEditor.antt =====
-- frontend/src/features/notes/note-editor.tsx: what is typed into a note and when it is sent. The
-- object that useMutation returns is new at every rendering, so the effect that calls `autoSave`
-- runs after each: its cleanup clears the timer, and `autoSave` sets one where it has to. The
-- mutations are a parameter: a request is recorded, and `settle` is its answer. The parent takes
-- the editor away when it calls onSave or onCancel.
use kan_pad.Base.{
  ◌≡◌, ℕ, ◌+◌, Bool, true, false, not, ◌&&◌, List, [], ◌∷◌, ◌++◌, Option, none, some, get_or,
  is_some, leb, if◌then◌else◌,
}
use kan_pad.Base.Text.{Text, is_empty, trim}
pub mod Marked
pub mod Forgotten

-- the fields that the user edits, and the body of a request
pub record Draft : Type 0 where
  pub title : Text
  pub content : Text
  pub tag_ids : List ℕ
  pub board_id : Option ℕ
  pub project_id : Option ℕ
  pub card_id : Option ℕ

-- which call of `mutate` the callbacks belong to; a later call takes them away from an earlier one
pub data Call : Type 0 where
  auto_save save : Call

-- The state of the component, with the clock of the host in milliseconds, the draft that the
-- pending timer closes over, and the bodies sent so far, the latest first.
pub record Editor : Type 0 where
  pub note_id : Option ℕ
  pub draft : Draft
  pub dirty : Bool
  pub auto_saving : Bool
  pub timer : Option (ℕ × Draft)
  pub pending : Option Call
  pub requests : List Draft
  pub failures : ℕ
  pub closed : Bool
  pub now : ℕ

pub data Event : Type 0 where
  set_title set_content : Text → Event
  set_tags : List ℕ → Event
  link_board link_project link_card : Option ℕ → Event
  insert_markdown : ℕ → ℕ → Text → Text → Event
  -- a rendering that something else causes
  render : Event
  press_save : Event
  -- the answer of the latest request, a success or a failure
  settle : Bool → Event
  -- Escape, with what the user answers if asked
  escape : Bool → Event
  press_cancel : Event
  wait : ℕ → Event

-- `text.substring(0, n)` and `text.substring(n)`
unfoldable pub text_before : ℕ → Text → Text
text_before ℕ.zero s = []
text_before (ℕ.suc n) [] = []
text_before (ℕ.suc n) (c ∷ s) = c ∷ text_before n s

unfoldable pub text_from : ℕ → Text → Text
text_from ℕ.zero s = s
text_from (ℕ.suc n) [] = []
text_from (ℕ.suc n) (c ∷ s) = text_from n s

-- `newContent` of insertMarkdown, where start ≤ end
unfoldable pub with_markdown : ℕ → ℕ → Text → Text → Text → Text
unfolding text_before text_from
with_markdown start end before after content =
    text_before start content
    ++ (before ++ (text_from start (text_before end content) ++ (after ++ text_from end content)))

-- the body of an update and of a creation
unfoldable pub note_data : Draft → Draft
note_data d = record d { title = trim (Draft.title d) }

abbrev pub is_blank : Draft → Bool
is_blank d = is_empty (trim (Draft.title d))

-- the effect after a rendering: the cleanup and `autoSave`
unfoldable pub arm : Editor → Editor
arm s = record s {
  timer =
      if Editor.dirty s && is_some (Editor.note_id s) && not (is_some (Editor.pending s))
      then some (Editor.now s + 2000, Editor.draft s)
      else none;
}

-- a field is set, and `dirty`
abbrev pub edit : Draft → Editor → Editor
edit draft s = arm (record s { draft = draft; dirty = true })

-- the callback of the timer
unfoldable pub fire : Draft → Editor → Editor
unfolding arm note_data
fire d s =
    if is_blank d
    then record s { timer = none }
    else arm (record s {
      timer = none;
      auto_saving = true;
      pending = some auto_save;
      requests = note_data d ∷ Editor.requests s;
      dirty = false;
    })

unfoldable pub fire_due : Editor → Editor
unfolding fire
fire_due s = elim (Editor.timer s) [
  | none ↦ s
  | some (due, d) ↦ if leb due (Editor.now s) then fire d s else s
]

unfoldable pub handle_save : Editor → Editor
unfolding arm note_data
handle_save s =
    if is_blank (Editor.draft s)
    then record s { failures = Editor.failures s + 1 }
    else arm (record s {
      timer = none;
      pending = some save;
      requests = note_data (Editor.draft s) ∷ Editor.requests s;
    })

-- onSave and onCancel of the parent
abbrev pub close : Editor → Editor
close s = record s { closed = true; timer = none }

-- the callbacks of the latest call
unfoldable pub settled : Bool → Editor → Editor
unfolding arm
settled success s = elim (Editor.pending s) [
  | none ↦ s
  | some auto_save ↦ arm (record s {
    pending = none;
    auto_saving = false;
    failures = if success then Editor.failures s else Editor.failures s + 1;
  })
  | some save ↦
      if success
      then close (record s { pending = none; dirty = false })
      else arm (record s { pending = none; failures = Editor.failures s + 1 })
]

unfoldable pub step : Event → Editor → Editor
unfolding arm fire_due handle_save settled with_markdown
step (set_title t) s = edit (record (Editor.draft s) { title = t }) s
step (set_content c) s = edit (record (Editor.draft s) { content = c }) s
step (set_tags ids) s = arm (record s { draft = record (Editor.draft s) { tag_ids = ids } })
step (link_board id) s = edit (record (Editor.draft s) { board_id = id }) s
step (link_project id) s = edit (record (Editor.draft s) { project_id = id }) s
step (link_card id) s = edit (record (Editor.draft s) { card_id = id }) s
step (insert_markdown start end before after) s =
    edit
      (record (Editor.draft s) {
        content = with_markdown start end before after (Draft.content (Editor.draft s));
      })
      s
step render s = arm s
step press_save s = handle_save s
step (settle success) s = settled success s
step (escape confirmed) s = if Editor.dirty s && not confirmed then s else close s
step press_cancel s = close s
step (wait n) s = fire_due (record s { now = Editor.now s + n })

-- the handler of `beforeunload`: whether the browser asks
abbrev pub warns : Editor → Bool
warns s = Editor.dirty s

-- the editor as it is first shown, with the fields of the note or the defaults
abbrev pub opened : Option ℕ → Draft → ℕ → Editor
opened note_id draft now = record {
  note_id = note_id;
  draft = draft;
  dirty = false;
  auto_saving = false;
  timer = none;
  pending = none;
  requests = [];
  failures = 0;
  closed = false;
  now = now;
}

-- The states of the editor until the parent takes it away.
pub data Reach (original : Draft) (note_id : Option ℕ) : Editor → Type 0 where
  at_start : (now : ℕ) → Reach original note_id (opened note_id original now)
  next :
      {s : Editor} (e : Event)
      → Reach original note_id s
      → Editor.closed (step e s) ≡ false
      → Reach original note_id (step e s)
