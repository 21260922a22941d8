-- ===== src/Frontend/NoteEditor/Marked.antt =====
-- What the editor knows to be unsaved.
use kan_pad.Base.{ℕ, ◌+◌, ◌≤◌, ◌≡◌, ◌⊎◌, true, false, List, [], ◌∷◌, none, some, is_some}
use kan_pad.Frontend.NoteEditor.{Draft, Editor, note_data, is_blank}

abbrev pub without_tags : Draft → Draft
without_tags d = record d { tag_ids = [] }

-- but for the tags, the fields are those that were sent last, or those that were there at first
abbrev pub IsSent : Draft → Draft → List Draft → Type 0
IsSent original d [] = without_tags d ≡ without_tags original
IsSent original d (r ∷ rs) = without_tags (note_data d) ≡ without_tags r

abbrev pub IsMarked : Draft → Editor → Type 0
IsMarked original s = (s.dirty ≡ true) ⊎ IsSent original s.draft s.requests

-- the timer that an editor needs
abbrev pub NeedsTimer : Editor → Type 0
NeedsTimer s =
    (s.dirty ≡ true) × (is_some s.note_id ≡ true) × (s.pending ≡ none) × (is_blank s.draft ≡ false)

pub record IsKept (original : Draft) (s : Editor) : Type 0 where
  pub marked : IsMarked original s
  pub current :
      (due : ℕ) (d : Draft) → s.timer ≡ some (due, d) → (d ≡ s.draft) × (due ≤ s.now + 2000)
  pub armed : NeedsTimer s → (due : ℕ) × (s.timer ≡ some (due, s.draft)) × (due ≤ s.now + 2000)
