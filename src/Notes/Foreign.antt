-- ===== src/Notes/Foreign.antt =====
-- `update` on a note that is linked to nothing, with the board of another user.
use kan_pad.Base.{
  ℕ, map-same, Bool-cases, ==_iff, inl, inr, refl, sym, ◌∙◌, ◌≡◌, ◌≢◌, none, some, List, map,
  Member, Member-map, arith, ◌==◌, ==_refl, if◌then◌else◌,
}
use kan_pad.Notes.Links.{check_access, check_linked_board}
use kan_pad.Notes.Service.{UpdateNoteDto, find_by_id, loaded_board, choose_tags, update}
use kan_pad.Store.Action.{ok, err, forbidden}
use kan_pad.Store.Distinct.{Distinct-unique, any-same, Distinct-map, same_id}
use kan_pad.Store.Entities.{Board, Note, Db}
use kan_pad.Store.Keyed.{IsKeyed, find_one-Member}
use kan_pad.Store.Laws.{IsLawful}
use kan_pad.Store.Repository.{Orm}
use kan_pad.Store.Repository.Documented.{replace}

-- the body of a request that links a note to a board
abbrev pub link_to : ℕ → UpdateNoteDto
link_to board_id = record {
  title = none;
  content = none;
  board_id = some (some board_id);
  project_id = none;
  card_id = none;
  tag_ids = none;
}

module _ (o : Orm) (laws : IsLawful o) (db : Db) (keyed : IsKeyed db) (note : Note) (linked : Board)
    (here : Member note db.notes) (there : Member linked db.boards)
    (no_board : note.board_id ≡ none) (no_project : note.project_id ≡ none)
    (no_card : note.card_id ≡ none) (real : linked.id ≢ 0)
    (foreign : linked.user_id ≢ note.user_id) where
  abbrev linked_note : Note
  linked_note = record note { board_id = some linked.id }

  abbrev notes_after : List Note
  notes_after = map (λ n. if same_id Note.id linked_note n then linked_note else n) db.notes

  saved_note : o.notes.save linked_note db.notes ≡ notes_after
  saved_note = laws.notes.save_present linked_note db.notes (any-same Note.id note db.notes here)

  note_before : o.notes.find_one (λ n. Note.id n == note.id) db.notes ≡ some note
  note_before = find_one-Member Note.id o.notes laws.notes note db.notes keyed.notes here

  note_after : o.notes.find_one (λ n. Note.id n == note.id) notes_after ≡ some linked_note
  note_after =
      let m =
        Member-map (λ n. if same_id Note.id linked_note n then linked_note else n) note db.notes
          here in
      let there : Member linked_note notes_after = ground (arith, m, ==_refl note.id) in
      find_one-Member Note.id o.notes laws.notes linked_note notes_after
        (Distinct-map Note.id _ db.notes (λ n. ground arith) keyed.notes) there

  board_found : o.boards.find_one (λ b. Board.id b == linked.id) db.boards ≡ some linked
  board_found = find_one-Member Board.id o.boards laws.boards linked db.boards keyed.boards there

  -- The user of a note that is linked to nothing can link it to a board of another user: `update`
  -- succeeds. From then on the note is refused to the user who wrote it, and the other user reads it.
  pub update-foreign :
      (update o note.id note.user_id (link_to linked.id) db
        ≡ (ok linked_note, record db { notes = notes_after }))
      × (find_by_id o note.id note.user_id (record db { notes = notes_after })
          ≡ (err (forbidden "Access denied"), record db { notes = notes_after }))
      × (find_by_id o note.id linked.user_id (record db { notes = notes_after })
          ≡ (ok linked_note, record db { notes = notes_after }))
  unfolding update find_by_id check_access check_linked_board choose_tags loaded_board
  update-foreign = (
    ground (
      arith,
      note_before,
      no_board,
      no_project,
      no_card,
      saved_note,
      laws.foreign_key_unloaded (some linked.id),
      ==_refl note.user_id,
    ),
    ground (arith, note_after, board_found),
    ground (arith, note_after, board_found, ==_refl linked.user_id),
  )

module _ (o : Orm) (laws : IsLawful o) (db : Db) (keyed : IsKeyed db) (note : Note) (linked : Board)
    (here : Member note db.notes) (there : Member linked db.boards)
    (on_board : note.board_id ≡ some linked.id) (real : linked.id ≢ 0) where
  kept_note : replace (same_id Note.id) note db.notes ≡ db.notes
  kept_note = map-same _ db.notes (λ n m. elim (Bool-cases (note.id == n.id)) [
    | inl h ↦ rw h (Distinct-unique Note.id note n db.notes keyed.notes here m ((==_iff _ _).0 h))
    | inr h ↦ rw h refl
  ])

  -- The user of the board of a note asks to link the note to another board: `update` answers with the
  -- note on that board, but the tables stay as they were, since `save` takes the key from the board
  -- that was loaded.
  pub update-board_kept :
      (other_id : ℕ)
      → update o note.id linked.user_id (link_to other_id) db
        ≡ (ok (record note { board_id = some other_id }), db)
  unfolding update find_by_id check_access check_linked_board choose_tags loaded_board
  update-board_kept other_id =
      let found = find_one-Member Note.id o.notes laws.notes note db.notes keyed.notes here in
      let board_found =
        find_one-Member Board.id o.boards laws.boards linked db.boards keyed.boards there in
      let stored : record note { board_id = some linked.id } ≡ note =
        λ i. record note { board_id = sym on_board i } in
      let saved : o.notes.save note db.notes ≡ db.notes =
        laws.notes.save_present note db.notes (any-same Note.id note db.notes here) ∙ kept_note in
      ground (
        arith,
        found,
        on_board,
        board_found,
        laws.foreign_key_loaded linked.id (some other_id),
        stored,
        saved,
        ==_refl linked.user_id,
      )
