-- ===== src/Boards/Lifecycle.antt =====
-- Archiving, restoring and deleting a board.
use kan_pad.Base.{
  ℕ, ap₂, ◌∙◌, sym, ◌≡◌, refl, ◌⊎◌, inl, inr, Bool, true, false, ◌&&◌, map-map, map-same, Member,
  arith, Member-map, Bool-cases, Option-cases, ◌==◌, ==_iff, ==_refl, if◌then◌else◌,
}
use kan_pad.Boards.{find_one, archive, restore, remove, permanent_delete}
use kan_pad.Store.Action.{forbidden, ok, err, ◌>>◌, >>=-ok}
use kan_pad.Store.Distinct.{any-same, Distinct-map, Distinct-unique, same_id}
use kan_pad.Store.Entities.{Board, Db}
use kan_pad.Store.Keyed.{IsKeyed}
use kan_pad.Store.Laws.{IsLawful}
use kan_pad.Store.Repository.{Orm}
use kan_pad.Store.Repository.Documented.{replace}

module _ (o : Orm) (laws : IsLawful o) (db : Db) (keyed : IsKeyed db) where
  abbrev own : ℕ → ℕ → Board → Bool
  own id user_id b = b.id == id && b.user_id == user_id

  own_unique :
      (x y : Board) (user_id : ℕ)
      → Member x db.boards
      → Member y db.boards
      → own x.id user_id y ≡ true
      → x ≡ y
  own_unique x y user_id mx my h =
      Distinct-unique Board.id x y db.boards keyed.boards mx my (ground arith)

  pub find_one-own :
      (board : Board)
      → Member board db.boards
      → find_one o board.id board.user_id db ≡ (ok board, db)
  unfolding find_one
  find_one-own board m =
      elim (Option-cases (o.boards.find_one (own board.id board.user_id) db.boards)) [
        | inl e ↦
            let missing =
              laws.boards.find_one-complete (own board.id board.user_id) db.boards board e m in
            absurd (ground arith)
        | inr (b, e) ↦
            let (mb, hb) = laws.boards.find_one-sound (own board.id board.user_id) db.boards b e in
            let same : board ≡ b = own_unique board b board.user_id m mb hb in
            ground (arith, e, same)
      ]

  pub find_one-owned :
      (id user_id : ℕ) (board : Board)
      → (find_one o id user_id db).0 ≡ ok board
      → Member board db.boards × (board.id ≡ id) × (board.user_id ≡ user_id)
  unfolding find_one
  find_one-owned id user_id board h =
      elim (Option-cases (o.boards.find_one (own id user_id) db.boards)) [
        | inl e ↦ absurd (ground (arith, e))
        | inr (b, e) ↦
            let (mb, hb) = laws.boards.find_one-sound (own id user_id) db.boards b e in
            let same : b ≡ board = ground (arith, e) in
            (rw (← same) mb, ground (arith, hb, same), ground (arith, hb, same))
      ]

  save_own :
      (board changed : Board)
      → Member board db.boards
      → changed.id ≡ board.id
      → o.boards.save changed db.boards ≡ replace (same_id Board.id) changed db.boards
  save_own board changed m e =
      laws.boards.save_present changed db.boards (rw e (any-same Board.id board db.boards m))

  pub archive-own :
      (board : Board)
      → Member board db.boards
      → board.is_archived ≡ false
      → archive o board.id board.user_id db ≡ (
        ok (record board { is_archived = true }),
        record db {
          boards = replace (same_id Board.id) (record board { is_archived = true }) db.boards;
        },
      )
  unfolding archive
  archive-own board m h =
      ground
        (arith, find_one-own board m, save_own board (record board { is_archived = true }) m refl)

  pub restore-own :
      (board : Board)
      → Member board db.boards
      → board.is_archived ≡ true
      → restore o board.id board.user_id db ≡ (
        ok (record board { is_archived = false }),
        record db {
          boards = replace (same_id Board.id) (record board { is_archived = false }) db.boards;
        },
      )
  unfolding restore
  restore-own board m h =
      ground
        (arith, find_one-own board m, save_own board (record board { is_archived = false }) m refl)

  -- `permanentDelete` succeeds exactly on the archived boards of the user, and then does what
  -- `remove` does; on a board that is not archived it throws and changes nothing.
  pub permanent_delete-archived :
      (board : Board)
      → Member board db.boards
      → ((board.is_archived ≡ true)
          × (permanent_delete o board.id board.user_id db ≡ remove o board.id board.user_id db))
        ⊎ ((board.is_archived ≡ false)
            × (permanent_delete o board.id board.user_id db
                ≡ (err (forbidden "Board must be archived before permanent deletion"), db)))
  unfolding permanent_delete remove
  permanent_delete-archived board m = elim (Bool-cases board.is_archived) [
    | inl h ↦ inl (h, ground (arith, find_one-own board m))
    | inr h ↦ inr (h, ground (arith, find_one-own board m))
  ]

replace-IsKeyed :
    (db : Db) (board : Board)
    → IsKeyed db
    → IsKeyed (record db { boards = replace (same_id Board.id) board db.boards })
replace-IsKeyed db board k = record {
  users = k.users;
  projects = k.projects;
  boards =
      Distinct-map Board.id (λ b. if same_id Board.id board b then board else b) db.boards
        (λ b. ground arith) k.boards;
  columns = k.columns;
  cards = k.cards;
  labels = k.labels;
  checklists = k.checklists;
  checklist_items = k.checklist_items;
  tags = k.tags;
  notes = k.notes;
}

module _ (o : Orm) (laws : IsLawful o) (db : Db) (keyed : IsKeyed db) (board : Board)
    (here : Member board db.boards) where
  abbrev archived : Board
  archived = record board { is_archived = true }

  -- putting a row back
  replace-replace :
      replace (same_id Board.id) board (replace (same_id Board.id) archived db.boards) ≡ db.boards
  replace-replace =
      map-map (λ b. if same_id Board.id archived b then archived else b)
        (λ b. if same_id Board.id board b then board else b) db.boards
      ∙ map-same _ db.boards (λ b m. elim (Bool-cases (board.id == b.id)) [
        | inl h ↦
            let same =
              Distinct-unique Board.id board b db.boards keyed.boards here m ((==_iff _ _).0 h) in
            rw h (rw (==_refl board.id) same)
        | inr h ↦ rw h (rw h refl)
      ])

  -- Archiving a board of the user that is not archived answers with the board as an archived one and
  -- writes just that to its row; restoring it then brings the tables back, and answers with the board
  -- as it was.
  pub archive-restore :
      board.is_archived ≡ false
      → (archive o board.id board.user_id db ≡ (
        ok (record board { is_archived = true }),
        record db {
          boards = replace (same_id Board.id) (record board { is_archived = true }) db.boards;
        },
      ))
        × ((archive o board.id board.user_id >> restore o board.id board.user_id) db
            ≡ (ok board, db))
  archive-restore h =
      let there : Member archived (replace (same_id Board.id) archived db.boards) =
        let moved =
          Member-map (λ b. if same_id Board.id archived b then archived else b) board db.boards
            here in
        ground (arith, moved, ==_refl board.id) in
      let back : record board { is_archived = false } ≡ board =
        λ i. record board { is_archived = sym h i } in
      let stored = archive-own o laws db keyed board here h in
      (
        stored,
        >>=-ok (archive o board.id board.user_id) (λ _. restore o board.id board.user_id) db stored
            ∙ restore-own o laws
                (record db { boards = replace (same_id Board.id) archived db.boards })
                (replace-IsKeyed db archived keyed) archived there refl
            ∙ ap₂ (λ b t. (ok b, record db { boards = t })) back (rw back replace-replace),
      )
