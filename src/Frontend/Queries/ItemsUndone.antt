-- ===== src/Frontend/Queries/ItemsUndone.antt =====
-- A checklist item that could not be updated is shown as before.
use kan_pad.Base.{
  ℕ, ◌≡◌, ◌∙◌, sym, ap, inl, inr, none, some, Option-cases, Bool-cases, ◌==◌, ==_iff,
}
use kan_pad.Checklists.{UpdateChecklistItemDto}
use kan_pad.Frontend.Queries.{QueryClient, IsDocumented}
use kan_pad.Frontend.Queries.Items.{CachedCard, merge_card, update_on_mutate, update_on_error}

module _ {S : Type 0} (q : QueryClient S ℕ CachedCard) (documented : IsDocumented q ◌==◌) where
  -- A checklist item of a card is shown as updated ahead of the answer; when the request fails, the
  -- client shows every card as before, whether the card was cached or not.
  pub update_on_error-mutate :
      (item_id : ℕ) (dto : UpdateChecklistItemDto) (card_id : ℕ) (s : S) (j : ℕ)
      → let (after, previous) = update_on_mutate q item_id dto card_id s in
        q.get_query_data (update_on_error q card_id previous after) j ≡ q.get_query_data s j
  unfolding update_on_mutate update_on_error merge_card
  update_on_error-mutate item_id dto card_id s j =
      let f = merge_card item_id dto in
      let after = q.set_query_data s card_id f in
      let other = documented.get_set_other in
      elim (Option-cases (q.get_query_data s card_id)) [
        | inl e ↦ elim (Bool-cases (card_id == j)) [
          | inl h ↦
              let k = (==_iff card_id j).0 h in
              let empty : q.get_query_data after j ≡ none =
                rw e at (documented.get_set_same s card_id j f h) in
              rw e (empty ∙ sym e ∙ ap (q.get_query_data s) k)
          | inr h ↦ rw e (other s card_id j f h)
        ]
        | inr (card, e) ↦ elim (Bool-cases (card_id == j)) [
          | inl h ↦
              let k = (==_iff card_id j).0 h in
              rw e (
                documented.get_set_same after card_id j (λ old. some card) h
                ∙ sym e
                ∙ ap (q.get_query_data s) k)
          | inr h ↦ rw e (other after card_id j _ h ∙ other s card_id j f h)
        ]
      ]
