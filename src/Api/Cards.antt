-- ===== src/Api/Cards.antt =====
-- backend/src/cards/cards.controller.ts.
use kan_pad.Base.{ℕ, List, [], map}
use kan_pad.Base.Text.{codes}
use kan_pad.Api.{Reply, single, nothing, answers, answers_with, answered}
use kan_pad.Api.Content.{
  CardSummaryResponse, to_card_summary_response, CardResponse, to_card_response, bare_detail,
}
use kan_pad.Cards.Assignment.{assign_label, remove_label}
use kan_pad.Cards.Service.{
  CreateCardDto, UpdateCardDto, CardDetail, create, find_all_by_column_id, update, find_by_id,
  remove,
}
use kan_pad.Store.Action.{Action, gets, or_throw, type_error, ◌>>=◌, ◌>>◌}
use kan_pad.Store.Entities.{Card}
use kan_pad.Store.Repository.{Orm}
use kan_pad.Summary.{labels_of}

-- the routes of `CardsController`
pub data CardsRequest : Type 0 where
  list_cards : ℕ → CardsRequest
  create_card : CreateCardDto → CardsRequest
  patch_card : ℕ → UpdateCardDto → CardsRequest
  show_card : ℕ → CardsRequest
  attach_label detach_label : ℕ → ℕ → CardsRequest
  delete_card : ℕ → CardsRequest

pub data CardsAnswer : Type 0 where
  of_summaries : List CardSummaryResponse → CardsAnswer
  of_card : Reply CardResponse → CardsAnswer

module _ (o : Orm) where
  -- `cardLabels` and their labels, which `assignLabel` loads
  abbrev with_labels : Card → Action CardDetail
  with_labels c = gets (λ db. record { card = c; labels = labels_of db c; checklists = [] })

  unfoldable pub cards_controller : CardsRequest → ℕ → Action CardsAnswer
  unfolding to_card_response to_card_summary_response
  cards_controller (list_cards column_id) user_id = do
    cards ← find_all_by_column_id o column_id user_id
    gets (λ _. of_summaries (map to_card_summary_response cards))
  cards_controller (create_card dto) user_id = answered of_card (do
    card ← create o user_id dto
    answers_with (codes "Card created") (single (to_card_response o (bare_detail card))))
  cards_controller (patch_card id dto) user_id = answered of_card (do
    card ← update o id user_id dto
    answers_with (codes "Card updated") (single (to_card_response o (bare_detail card))))
  cards_controller (show_card id) user_id =
      answered of_card
        (do card ← find_by_id o id user_id; answers (single (to_card_response o card)))
  cards_controller (attach_label id label_id) user_id = answered of_card (do
    found ← assign_label o id label_id user_id
    card ← or_throw type_error found
    detail ← with_labels card
    answers_with (codes "Label assigned") (single (to_card_response o detail)))
  cards_controller (detach_label id label_id) user_id =
      answered of_card
        (do remove_label o id label_id user_id; answers_with (codes "Label removed") nothing)
  cards_controller (delete_card id) user_id =
      answered of_card (do remove o id user_id; answers_with (codes "Card deleted") nothing)
