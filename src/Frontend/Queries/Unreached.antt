-- ===== src/Frontend/Queries/Unreached.antt =====
-- What the mutations of use-cards.ts write is under other keys than what `useCards` reads.
use kan_pad.Base.{
  ℕ, ◌≡◌, refl, ◌∙◌, inl, inr, List, [], ◌∷◌, Option, none, some, Option-cases, Bool-cases, ◌==◌,
}
use kan_pad.Frontend.Arrays.{find}
use kan_pad.Frontend.Drag.{has_id}
use kan_pad.Frontend.Queries.{QueryClient, IsDocumented}
use kan_pad.Frontend.Queries.CardKeys.{
  CardsKey, column, page_of, same_key, column_of_key, by_column, JsNumber,
}
use kan_pad.Frontend.Queries.Cards.{
  Cards, Previous, Mutation, move_card, reorder_card, delete_card, query_with, drop_card,
  move_to_column, reorder_in_column, delete_in, on_mutate, on_error,
}

module _ {S : Type 0} (q : QueryClient S CardsKey Cards) (documented : IsDocumented q same_key)
    (c p l : ℕ) where
  abbrev read : S → Option Cards
  read s = q.get_query_data s (page_of c p l)

  written :
      (s : S) (column_id : ℕ) (f : Option Cards → Option Cards)
      → read (q.set_query_data s (column column_id) f) ≡ read s
  unfolding same_key
  written s column_id f = documented.get_set_other s (column column_id) (page_of c p l) f refl

  move_to_column-read : (id target : ℕ) (s : S) → read (move_to_column q id target s).0 ≡ read s
  unfolding move_to_column
  move_to_column-read id target s = elim (Option-cases (query_with id (q.get_queries_data s))) [
    | inl e ↦ rw (move_to_column, e) refl
    | inr ((source, card, cards), e) ↦ elim (Bool-cases (source == target)) [
      | inl h ↦ rw (move_to_column, e, h) refl
      | inr h ↦ rw (move_to_column, e, h) (written _ target _ ∙ written s source (drop_card id))
    ]
  ]

  reorder_in_column-read :
      (id position : ℕ) (s : S) → read (reorder_in_column q id position s).0 ≡ read s
  unfolding reorder_in_column
  reorder_in_column-read id position s =
      elim (Option-cases (query_with id (q.get_queries_data s))) [
        | inl e ↦ rw (reorder_in_column, e) refl
        | inr ((source, card, cards), e) ↦ rw (reorder_in_column, e) (written s source _)
      ]

  delete_in-read :
      (id : ℕ) (queries : List (CardsKey × Option Cards)) (s : S)
      → read (delete_in q id queries s).0 ≡ read s
  unfolding delete_in
  delete_in-read id [] s = refl
  delete_in-read id ((k, none) ∷ queries) s = delete_in-read id queries s
  delete_in-read id ((k, some cards) ∷ queries) s = elim (Option-cases (find (has_id id) cards)) [
    | inl e ↦ rw (delete_in, e) (delete_in-read id queries s)
    | inr (card, e) ↦
        rw (delete_in, e) (delete_in-read id queries _ ∙ written s (column_of_key k) _)
  ]

  on_mutate-read : (m : Mutation) (s : S) → read (on_mutate q m s).0 ≡ read s
  unfolding on_mutate
  on_mutate-read (move_card id none) s = refl
  on_mutate-read (move_card id (some none)) s = refl
  on_mutate-read (move_card id (some (some target))) s = move_to_column-read id target s
  on_mutate-read (reorder_card id position) s = reorder_in_column-read id position s
  on_mutate-read (delete_card id) s = delete_in-read id (q.get_queries_data s) s

  on_error-read : (previous : Previous) (s : S) → read (on_error q previous s) ≡ read s
  unfolding on_error
  on_error-read [] s = refl
  on_error-read ((column_id, cards) ∷ previous) s =
      on_error-read previous _ ∙ written s column_id (λ old. cards)

-- Neither what moving, reordering or deleting a card writes ahead of the answer, nor what is put
-- back on an error, changes what `useCards` reads, for any column, page and limit: the two are under
-- different keys.
pub mutations-read :
    {S : Type 0} (q : QueryClient S CardsKey Cards)
    → IsDocumented q same_key
    → (m : Mutation) (previous : Previous) (s : S) (column_id : ℕ) (page limit : Option JsNumber)
    → let key = by_column column_id page limit in
      (q.get_query_data (on_mutate q m s).0 key ≡ q.get_query_data s key)
      × (q.get_query_data (on_error q previous s) key ≡ q.get_query_data s key)
unfolding by_column
mutations-read q documented m previous s column_id page limit = (
  on_mutate-read q documented column_id _ _ m s,
  on_error-read q documented column_id _ _ previous s,
)
