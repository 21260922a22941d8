-- ===== src/Checklists/Refusal.antt =====
-- What a user who does not own the card of a checklist can do to it and to its items: nothing.
use kan_pad.Base.{ℕ, ◌≡◌, ◌==◌, inl, inr, Member, arith, Option-cases}
use kan_pad.Cards.Ownership.{OwnsCard}
use kan_pad.Checklists.{
  UpdateChecklistDto, CreateChecklistItemDto, find_checklist_by_id, update, remove, create_item,
}
use kan_pad.Store.Action.{Action, ok, err, HttpError, ◌>>◌, pure, Result-cases}
use kan_pad.Store.Entities.{Board, BoardColumn, Card, Checklist, Db}
use kan_pad.Store.Keyed.{find_one-id}
use kan_pad.Store.Laws.{IsLawful}
use kan_pad.Store.Repository.{Orm}

-- A checklist on a card of the user.
pub record OwnsChecklist (db : Db) (user_id : ℕ) (checklist : Checklist) : Type 0 where
  pub checklist_in : Member checklist (Db.checklists db)
  pub card : Card
  pub card_is : Card.id card ≡ Checklist.card_id checklist
  pub owns : OwnsCard db user_id card

-- the requests on a checklist that can change the tables
pub data ChecklistRequest : Type 0 where
  update_request : UpdateChecklistDto → ChecklistRequest
  remove_request : ChecklistRequest
  item_request : CreateChecklistItemDto → ChecklistRequest

module _ (o : Orm) where
  -- the method that the controller calls, with the result dropped
  pub serve : ChecklistRequest → ℕ → ℕ → Action (Unit {0})
  serve (update_request dto) id user_id = update o id user_id dto >> pure tt
  serve remove_request id user_id = remove o id user_id
  serve (item_request dto) id user_id = create_item o id user_id dto >> pure tt

module _ (o : Orm) (laws : IsLawful o) (db : Db) where
  find_checklist_by_id-reads : (id user_id : ℕ) → (find_checklist_by_id o id user_id db).1 ≡ db
  unfolding find_checklist_by_id
  find_checklist_by_id-reads id user_id = ground arith

  find_checklist_by_id-owns :
      (id user_id : ℕ) (checklist : Checklist)
      → (find_checklist_by_id o id user_id db).0 ≡ ok checklist
      → OwnsChecklist db user_id checklist × (checklist.id ≡ id)
  unfolding find_checklist_by_id
  find_checklist_by_id-owns id user_id checklist h =
      elim (Option-cases (o.checklists.find_one (λ l. Checklist.id l == id) db.checklists)) [
        | inl e ↦ absurd (ground (arith, e))
        | inr (l, el) ↦
            elim (Option-cases (o.cards.find_one (λ c. Card.id c == l.card_id) db.cards)) [
              | inl e ↦ absurd (ground (arith, el, e))
              | inr (a, ea) ↦
                  elim (Option-cases
                    (o.columns.find_one (λ c. BoardColumn.id c == a.column_id) db.columns)) [
                      | inl e ↦ absurd (ground (arith, el, ea, e))
                      | inr (c, ec) ↦
                          elim (Option-cases
                            (o.boards.find_one (λ b. Board.id b == c.board_id) db.boards)) [
                              | inl e ↦ absurd (ground (arith, el, ea, ec, e))
                              | inr (b, eb) ↦
                                  let same : l ≡ checklist = ground (arith, el, ea, ec, eb) in
                                  let own : b.user_id ≡ user_id = ground (arith, el, ea, ec, eb) in
                                  let (ml, il) =
                                    find_one-id Checklist.id o.checklists laws.checklists id l
                                      db.checklists el in
                                  let (ma, ia) =
                                    find_one-id Card.id o.cards laws.cards l.card_id a db.cards
                                      ea in
                                  let (mc, ic) =
                                    find_one-id BoardColumn.id o.columns laws.columns a.column_id c
                                      db.columns ec in
                                  let (mb, ib) =
                                    find_one-id Board.id o.boards laws.boards c.board_id b db.boards
                                      eb in
                                  (
                                    record {
                                      checklist_in = rw (← same) ml;
                                      card = a;
                                      card_is = rw (← same) ia;
                                      owns = record {
                                        card_in = ma;
                                        column = c;
                                        column_is = ic;
                                        owns = record {
                                          column_in = mc;
                                          board = b;
                                          board_in = mb;
                                          board_is = ib;
                                          owner_is = own;
                                        };
                                      };
                                    },
                                    rw (← same) il,
                                  )
                            ]
                    ]
            ]
      ]

  module _ (id user_id : ℕ)
      (foreign : (l : Checklist) → l.id ≡ id → OwnsChecklist db user_id l → ⊥) where
    lookup_fails : (e : HttpError) × (find_checklist_by_id o id user_id db ≡ (err e, db))
    lookup_fails = elim (Result-cases (find_checklist_by_id o id user_id db).0) [
      | inl (e, h) ↦ (e, λ i. (h i, find_checklist_by_id-reads id user_id i))
      | inr (l, h) ↦
          let (owns, same) = find_checklist_by_id-owns id user_id l h in
          absurd (foreign l same owns)
    ]

    -- Each request on a checklist that is not on a card of the user throws and leaves the tables as they
    -- were.
    pub serve-foreign_checklist :
        (request : ChecklistRequest)
        → (e : HttpError) × (serve o request id user_id db ≡ (err e, db))
    unfolding serve update remove create_item
    serve-foreign_checklist (update_request dto) =
        let (e, h) = lookup_fails in (e, ground (arith, h))
    serve-foreign_checklist remove_request = let (e, h) = lookup_fails in (e, ground (arith, h))
    serve-foreign_checklist (item_request dto) = let (e, h) = lookup_fails in (e, ground (arith, h))
