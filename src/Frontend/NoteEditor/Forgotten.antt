-- ===== src/Frontend/NoteEditor/Forgotten.antt =====
-- An auto-save that fails.
use kan_pad.Base.{ℕ, ◌≡◌, false, true, some, arith, ◌+◌}
use kan_pad.Frontend.NoteEditor.{
  Editor, auto_save, settle, escape, wait, arm, settled, fire_due, step,
}

-- When an auto-save fails and nothing was typed since it was sent, the failure is counted and the
-- change is no longer marked: no lapse of time sends it again, and Escape closes the editor without
-- a question.
pub failed_auto_save-forgotten :
    (s : Editor) (n : ℕ)
    → s.pending ≡ some auto_save
    → s.dirty ≡ false
    → (Editor.dirty (step (settle false) s) ≡ false)
      × (Editor.failures (step (settle false) s) ≡ s.failures + 1)
      × (Editor.requests (step (wait n) (step (settle false) s)) ≡ s.requests)
      × (Editor.closed (step (escape false) (step (settle false) s)) ≡ true)
unfolding step settled arm fire_due
failed_auto_save-forgotten s n p d =
    (ground (arith, p, d), ground (arith, p, d), ground (arith, p, d), ground (arith, p, d))
