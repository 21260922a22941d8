-- ===== src/Cards/Removal.antt =====
-- `remove` of a card, on foreign keys.
use kan_pad.Base.{ℕ, ◌≡◌, inl, inr, not, [], ◌∷◌, arith}
use kan_pad.Cards.Access.{find_card_by_id}
use kan_pad.Cards.Ownership.{find_card_by_id-reads}
use kan_pad.Cards.Service.{remove}
use kan_pad.Store.Action.{Result-cases}
use kan_pad.Store.Cascade.{cascade_cards}
use kan_pad.Store.Distinct.{same_id}
use kan_pad.Store.Entities.{BoardColumn, Card, CardLabel, Checklist, Db}
use kan_pad.Store.Laws.{IsLawful}
use kan_pad.Store.Repository.{Orm}
use kan_pad.Store.Rooted.{IsRooted, start, others, cascade_cards-IsRooted}

module _ (o : Orm) (laws : IsLawful o) (db : Db) (rooted : IsRooted db) where
  remove_card-IsRooted :
      (card : Card)
      → IsRooted (cascade_cards (card.id ∷ []) (record db { cards = o.cards.remove card db.cards }))
  remove_card-IsRooted card =
      let removed = laws.cards.remove_lem card db.cards in
      cascade_cards-IsRooted (card.id ∷ []) _ rooted.columns
        (rw removed (
          others Card.column_id BoardColumn.id db.cards db.columns
            (λ c. not (same_id Card.id card c)) rooted.cards))
        (rw removed (start Checklist.card_id Card.id card db.checklists db.cards rooted.checklists))
        (rw removed
          (start CardLabel.card_id Card.id card db.card_labels db.cards rooted.card_labels))
        rooted.checklist_items rooted.labels

  -- Where every row has the rows that its foreign keys name, they all still have them after removing
  -- a card, whatever the method answers.
  pub remove_card_keeps : (id user_id : ℕ) → IsRooted (remove o id user_id db).1
  unfolding remove
  remove_card_keeps id user_id =
      let reads = find_card_by_id-reads o laws db id user_id in
      elim (Result-cases (find_card_by_id o id user_id db).0) [
        | inl (e, h) ↦
            let a : (remove o id user_id db).1 ≡ db = ground (arith, h, reads) in rw a rooted
        | inr (card, h) ↦
            let a : (remove o id user_id db).1
                ≡ cascade_cards (card.id ∷ [])
                    (record db { cards = o.cards.remove card db.cards }) =
              ground (arith, h, reads) in
            rw a (remove_card-IsRooted card)
      ]
