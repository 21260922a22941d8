-- ===== src/Notes/Checks.antt =====
-- What `create` lets a note be linked to.
use kan_pad.Base.{
  ℕ, ap, ◌≡◌, refl, ◌∙◌, inl, inr, List, [], ◌∷◌, map, Member, Option, none, some, arith,
  Option-cases, ◌==◌,
}
use kan_pad.Cards.Ownership.{OwnsCard}
use kan_pad.Notes.Links.{find_tags, check_board, check_project, check_card, check_tags}
use kan_pad.Notes.Service.{CreateNoteDto, create}
use kan_pad.Store.Action.{ok, when_some, for_each, Result-cases}
use kan_pad.Store.Cascade.{is_in}
use kan_pad.Store.Entities.{Board, BoardColumn, Card, Project, Note, Tag, Db}
use kan_pad.Store.Keyed.{find_one-id}
use kan_pad.Store.Laws.{IsLawful}
use kan_pad.Store.Repository.{Orm, Generated}

-- What a note is linked to belongs to a user.
pub record IsLinkedToOwn (db : Db) (user_id : ℕ) (note : Note) : Type 0 where
  pub board_link :
      (i : ℕ)
      → Note.board_id note ≡ some i
      → (b : Board) × Member b (Db.boards db) × (Board.id b ≡ i) × (Board.user_id b ≡ user_id)
  pub project_link :
      (i : ℕ)
      → Note.project_id note ≡ some i
      → (p : Project) × Member p (Db.projects db)
        × (Project.id p ≡ i)
        × (Project.user_id p ≡ user_id)
  pub card_link :
      (i : ℕ) → Note.card_id note ≡ some i → (c : Card) × OwnsCard db user_id c × (Card.id c ≡ i)

module _ (o : Orm) (laws : IsLawful o) (db : Db) (user_id : ℕ) where
  check_board-owns :
      (id : ℕ)
      → (check_board o user_id id db).0 ≡ ok tt
      → (b : Board) × Member b db.boards × (b.id ≡ id) × (b.user_id ≡ user_id)
  unfolding check_board
  check_board-owns id h =
      elim (Option-cases (o.boards.find_one (λ b. Board.id b == id) db.boards)) [
        | inl e ↦ absurd (ground (arith, e))
        | inr (b, e) ↦
            let (m, i) = find_one-id Board.id o.boards laws.boards id b db.boards e in
            (b, m, i, ground (arith, e))
      ]

  check_project-owns :
      (id : ℕ)
      → (check_project o user_id id db).0 ≡ ok tt
      → (p : Project) × Member p db.projects × (p.id ≡ id) × (p.user_id ≡ user_id)
  unfolding check_project
  check_project-owns id h =
      elim (Option-cases (o.projects.find_one (λ p. Project.id p == id) db.projects)) [
        | inl e ↦ absurd (ground (arith, e))
        | inr (p, e) ↦
            let (m, i) = find_one-id Project.id o.projects laws.projects id p db.projects e in
            (p, m, i, ground (arith, e))
      ]

  check_card-owns :
      (id : ℕ)
      → (check_card o user_id id db).0 ≡ ok tt
      → (c : Card) × OwnsCard db user_id c × (c.id ≡ id)
  unfolding check_card
  check_card-owns id h = elim (Option-cases (o.cards.find_one (λ c. Card.id c == id) db.cards)) [
    | inl e ↦ absurd (ground (arith, e))
    | inr (a, ea) ↦
        elim (Option-cases (o.columns.find_one (λ c. BoardColumn.id c == a.column_id) db.columns)) [
          | inl e ↦ absurd (ground (arith, ea, e))
          | inr (c, ec) ↦
              elim (Option-cases (o.boards.find_one (λ b. Board.id b == c.board_id) db.boards)) [
                | inl e ↦ absurd (ground (arith, ea, ec, e))
                | inr (b, eb) ↦
                    let own : b.user_id ≡ user_id = ground (arith, ea, ec, eb) in
                    let (ma, ia) = find_one-id Card.id o.cards laws.cards id a db.cards ea in
                    let (mc, ic) =
                      find_one-id BoardColumn.id o.columns laws.columns a.column_id c db.columns
                        ec in
                    let (mb, ib) =
                      find_one-id Board.id o.boards laws.boards c.board_id b db.boards eb in
                    (
                      a,
                      record {
                        card_in = ma;
                        column = c;
                        column_is = ic;
                        owns = record {
                          column_in = mc;
                          board = b;
                          board_in = mb;
                          board_is = ib;
                          owner_is = own;
                        };
                      },
                      ia,
                    )
              ]
        ]
  ]

  board-reads : (i : Option ℕ) → (when_some i (check_board o user_id) db).1 ≡ db
  unfolding check_board
  board-reads none = refl
  board-reads (some i) = ground arith

  project-reads : (i : Option ℕ) → (when_some i (check_project o user_id) db).1 ≡ db
  unfolding check_project
  project-reads none = refl
  project-reads (some i) = ground arith

  card-reads : (i : Option ℕ) → (when_some i (check_card o user_id) db).1 ≡ db
  unfolding check_card
  card-reads none = refl
  card-reads (some i) = ground arith

  check_tags-reads : (tags : List Tag) (d : Db) → (check_tags o user_id tags d).1 ≡ d
  unfolding check_tags for_each
  check_tags-reads [] d = refl
  check_tags-reads (t ∷ ts) d = ground (arith, check_tags-reads ts d)

  find_tags-reads : (ids : Option (List ℕ)) → (find_tags o user_id ids db).1 ≡ db
  unfolding find_tags
  find_tags-reads none = refl
  find_tags-reads (some []) = refl
  find_tags-reads (some (i ∷ is)) =
      ground (arith, check_tags-reads (o.tags.find (λ t. is_in (i ∷ is) (Tag.id t)) db.tags) db)

  -- A note is only created with links to what is the user's: if `create` succeeds, the board and the
  -- project that it is linked to belong to the user, and so does the board of the card.
  pub create-links :
      (dto : CreateNoteDto) (note : Note)
      → (create o user_id dto db).0 ≡ ok note
      → IsLinkedToOwn db user_id note
  unfolding create
  create-links dto note h = elim (Result-cases (find_tags o user_id dto.tag_ids db).0) [
    | inl (e, t) ↦ absurd (ground (arith, t))
    | inr (tags, t) ↦ elim (Result-cases (when_some dto.board_id (check_board o user_id) db).0) [
      | inl (e, b) ↦ absurd (ground (arith, t, b, find_tags-reads dto.tag_ids))
      | inr (_, b) ↦ elim (Result-cases (when_some dto.project_id (check_project o user_id) db).0) [
        | inl (e, p) ↦
            absurd (ground (arith, t, b, p, find_tags-reads dto.tag_ids, board-reads dto.board_id))
        | inr (_, p) ↦ elim (Result-cases (when_some dto.card_id (check_card o user_id) db).0) [
          | inl (e, c) ↦ absurd (
              ground (
                arith,
                t,
                b,
                p,
                c,
                find_tags-reads dto.tag_ids,
                board-reads dto.board_id,
                project-reads dto.project_id,
              ))
          | inr (_, c) ↦
              let made : Generated → Note = λ g. record {
                id = g.id;
                title = dto.title;
                content = dto.content;
                board_id = dto.board_id;
                project_id = dto.project_id;
                card_id = dto.card_id;
                user_id = user_id;
                tag_ids = map Tag.id tags;
              } in
              let (g, inserted, _, _) = laws.new_notes.insert_lem made db.notes in
              let run : made g ≡ note = ground (
                arith,
                t,
                b,
                p,
                c,
                find_tags-reads dto.tag_ids,
                board-reads dto.board_id,
                project-reads dto.project_id,
                card-reads dto.card_id,
                inserted,
              ) in
              record {
                board_link = λ i e.
                    let link : dto.board_id ≡ some i = ap Note.board_id run ∙ e in
                    check_board-owns i (rw link at b);
                project_link = λ i e.
                    let link : dto.project_id ≡ some i = ap Note.project_id run ∙ e in
                    check_project-owns i (rw link at p);
                card_link = λ i e.
                    let link : dto.card_id ≡ some i = ap Note.card_id run ∙ e in
                    check_card-owns i (rw link at c);
              }
        ]
      ]
    ]
  ]
