-- ===== src/Cards/Refusal.antt =====
-- What a user who does not own a card can do to it: nothing.
use kan_pad.Base.{ℕ, ◌≡◌, inl, inr, arith}
use kan_pad.Cards.Access.{find_card_by_id}
use kan_pad.Cards.Assignment.{check_label, assign_label, remove_label}
use kan_pad.Cards.Ownership.{OwnsCard, find_card_by_id-owns, find_card_by_id-reads}
use kan_pad.Cards.Service.{UpdateCardDto, update, remove}
use kan_pad.Store.Action.{Action, err, HttpError, ◌>>◌, pure, Result-cases}
use kan_pad.Store.Entities.{Card, Db}
use kan_pad.Store.Laws.{IsLawful}
use kan_pad.Store.Repository.{Orm}

-- the requests on a card that can change the tables
pub data CardRequest : Type 0 where
  update_request : UpdateCardDto → CardRequest
  remove_request : CardRequest
  assign_request unassign_request : ℕ → CardRequest

module _ (o : Orm) where
  -- the method that the controller calls, with the result dropped
  pub serve : CardRequest → ℕ → ℕ → Action (Unit {0})
  serve (update_request dto) id user_id = update o id user_id dto >> pure tt
  serve remove_request id user_id = remove o id user_id
  serve (assign_request label_id) id user_id = assign_label o id label_id user_id >> pure tt
  serve (unassign_request label_id) id user_id = remove_label o id label_id user_id

module _ (o : Orm) (laws : IsLawful o) (db : Db) (id user_id : ℕ)
    (foreign : (c : Card) → Card.id c ≡ id → OwnsCard db user_id c → ⊥) where
  lookup_fails : (e : HttpError) × (find_card_by_id o id user_id db ≡ (err e, db))
  lookup_fails = elim (Result-cases (find_card_by_id o id user_id db).0) [
    | inl (e, h) ↦ (e, λ i. (h i, find_card_by_id-reads o laws db id user_id i))
    | inr (card, h) ↦
        let (owns, same) = find_card_by_id-owns o laws db id user_id card h in
        absurd (foreign card same owns)
  ]

  -- Each request on a card that is not the user's throws and leaves the tables as they were.
  pub serve-foreign :
      (request : CardRequest) → (e : HttpError) × (serve o request id user_id db ≡ (err e, db))
  unfolding serve update remove assign_label remove_label check_label
  serve-foreign (update_request dto) = let (e, h) = lookup_fails in (e, ground (arith, h))
  serve-foreign remove_request = let (e, h) = lookup_fails in (e, ground (arith, h))
  serve-foreign (assign_request label_id) =
      let (e, h) = lookup_fails in (e, ground (arith, h, laws.rollback_lem db db))
  serve-foreign (unassign_request label_id) =
      let (e, h) = lookup_fails in (e, ground (arith, h, laws.rollback_lem db db))
