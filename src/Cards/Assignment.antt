-- ===== src/Cards/Assignment.antt =====
-- backend/src/cards/cards.service.ts: `assignLabel` and `removeLabel`.
use kan_pad.Base.{ℕ, not, ◌&&◌, Option, is_some, ◌==◌}
use kan_pad.Store.Action.{
  Action, not_found, forbidden, gets, throw_if, or_throw, modify, when, transaction, ◌>>=◌, ◌>>◌,
}
use kan_pad.Store.Entities.{Card, CardLabel, Label}
use kan_pad.Store.Relations.{card_at, label_at}
use kan_pad.Store.Repository.{Orm}
use kan_pad.Cards.Access.{find_card_by_id}

module _ (o : Orm) where
  -- the checks that `assignLabel` and `removeLabel` begin with
  unfoldable pub check_label : ℕ → ℕ → ℕ → Action (Unit {0})
  check_label card_id label_id user_id = do
    find_card_by_id o card_id user_id
    label ← label_at o label_id >>= or_throw (not_found "Label not found")
    throw_if (forbidden "Access denied") (not (Label.user_id label == user_id))

  abbrev pub assignment : ℕ → ℕ → Action (Option CardLabel)
  assignment card_id label_id = gets (λ db.
      o.card_labels.find_one
        (λ l. CardLabel.card_id l == card_id && CardLabel.label_id l == label_id) db.card_labels)

  unfoldable pub assign_label : ℕ → ℕ → ℕ → Action (Option Card)
  assign_label card_id label_id user_id = transaction o (do
    check_label card_id label_id user_id
    existing ← assignment card_id label_id
    when (not (is_some existing)) (
        modify (λ db. record db {
          card_labels =
              o.card_labels.save (record { card_id = card_id; label_id = label_id }) db.card_labels;
        }))
    card_at o card_id)

  unfoldable pub remove_label : ℕ → ℕ → ℕ → Action (Unit {0})
  remove_label card_id label_id user_id = transaction o (do
    check_label card_id label_id user_id
    existing ←
        assignment card_id label_id >>= or_throw (not_found "Label not assigned to this card")
    modify (λ db. record db { card_labels = o.card_labels.remove existing db.card_labels }))
