-- ===== src/Tests/ServiceRuns.antt =====
-- The theorems on requests that are refused, labels, tags, notes and projects, applied to the small
-- database.
use kan_pad.Base.{◌≡◌, refl, inl, inr, arith, [], ◌∷◌, none, some}
use kan_pad.Base.Text.{text_eq_iff}
use kan_pad.Cards.Ownership.{OwnsColumn}
use kan_pad.Checklists.Refusal.{OwnsChecklist}
use kan_pad.Notes.Checks.{IsLinkedToOwn, create-links}
use kan_pad.Notes.Foreign.{link_to, update-board_kept}
use kan_pad.Store.Keyed.{IsKeyed}
use kan_pad.Notes.Links.{find_tags, check_board}
use kan_pad.Notes.Query.{ListNotesDto}
use kan_pad.Notes.Service.{CreateNoteDto, create}
use kan_pad.Projects.{remove}
use kan_pad.Projects.Removal.{IsUnlinked, remove-IsUnlinked}
use kan_pad.Store.Action.{ok}
use kan_pad.Store.Entities.{BoardColumn, Checklist, Note, Project, Db}
use kan_pad.Tags.{update}
use kan_pad.Tags.Names.{IsNamed, rename_to, update-duplicates}
use kan_pad.Tests.World.{engine, engine-IsLawful, world, world-IsKeyed, board_at, tag_at, note_at}

-- user 2 has neither columns nor checklists
no_column : (c : BoardColumn) → c.id ≡ 1 → OwnsColumn world 2 c → ⊥
no_column c e owns =
    let columns = owns.column_in in
    let boards = owns.board_in in ground (arith, owns.board_is, owns.owner_is)

no_checklist : (l : Checklist) → l.id ≡ 1 → OwnsChecklist world 2 l → ⊥
no_checklist l e owns =
    let columns = owns.owns.owns.column_in in
    let boards = owns.owns.owns.board_in in
    ground (arith, owns.owns.owns.board_is, owns.owns.owns.owner_is)

abbrev any_notes : ListNotesDto
any_notes = record {
  search = none;
  type = none;
  tag_id = none;
  board_id = none;
  page = none;
  limit = none;
}

world-IsNamed_tags : IsNamed engine world
world-IsNamed_tags l m ml mm u c = ground (arith, (text_eq_iff l.name m.name).0 c)

update-duplicates_example :
    (update engine 1 1 (rename_to (2 ∷ [])) world ≡ (
      ok (record (tag_at 1 1) { name = 2 ∷ [] }),
      record world { tags = record (tag_at 1 1) { name = 2 ∷ [] } ∷ tag_at 2 1 ∷ [] },
    ))
    × ¬ IsNamed engine
        (record world { tags = record (tag_at 1 1) { name = 2 ∷ [] } ∷ tag_at 2 1 ∷ [] })
update-duplicates_example =
    update-duplicates engine engine-IsLawful world world-IsKeyed (tag_at 1 1) (tag_at 2 1)
      (inl refl) (inr (inl refl)) (omega arith) refl

abbrev first_project : Project
first_project = record { id = 1; name = []; user_id = 1; created_at = 0 }

remove-IsUnlinked_example :
    (after : Db) × (remove engine 1 1 world ≡ (ok tt, after)) × IsUnlinked 1 world after
remove-IsUnlinked_example = remove-IsUnlinked engine engine-IsLawful world first_project (inl refl)

abbrev new_note : CreateNoteDto
new_note = record {
  title = [];
  content = [];
  board_id = some 1;
  project_id = none;
  card_id = none;
  tag_ids = none;
}

abbrev created_note : Note
created_note = record (note_at 2 1) { board_id = some 1 }

created : (create engine 1 new_note world).0 ≡ ok created_note
unfolding create find_tags check_board
created = refl

create-links_example : IsLinkedToOwn world 1 created_note
create-links_example = create-links engine engine-IsLawful world 1 new_note created_note created

-- the note of user 1 on the board of user 1
abbrev linked_note : Note
linked_note = record (note_at 1 1) { board_id = some 1 }

abbrev world_linked : Db
world_linked = record world { notes = linked_note ∷ [] }

world_linked-IsKeyed : IsKeyed world_linked
world_linked-IsKeyed = record {
  users = world-IsKeyed.users;
  projects = world-IsKeyed.projects;
  boards = world-IsKeyed.boards;
  columns = world-IsKeyed.columns;
  cards = world-IsKeyed.cards;
  labels = world-IsKeyed.labels;
  checklists = world-IsKeyed.checklists;
  checklist_items = world-IsKeyed.checklist_items;
  tags = world-IsKeyed.tags;
  notes = (refl, tt);
}

update-board_kept_example :
    kan_pad.Notes.Service.update engine 1 1 (link_to 7) world_linked
    ≡ (ok (record linked_note { board_id = some 7 }), world_linked)
update-board_kept_example =
    update-board_kept engine engine-IsLawful world_linked world_linked-IsKeyed linked_note
      (board_at 1 1) (inl refl) (inl refl) refl (omega arith) 7
