-- ===== src/Frontend/Queries/Cards.antt =====
-- `useMoveCard`, `useReorderCard` and `useDeleteCard` of frontend/src/features/cards/use-cards.ts:
-- what their `onMutate` writes ahead of the answer, and what their `onError` puts back.
use kan_pad.Base.{
  ℕ, not, List, [], ◌∷◌, ◌++◌, Option, none, some, select, get_or, ◌==◌, if◌then◌else◌,
}
use kan_pad.Base.Int.{pos}
use kan_pad.Base.JsMap.{map_set}
use kan_pad.Frontend.Arrays.{find, find_index, insert_at, remove_at, nth}
use kan_pad.Frontend.Drag.{has_id, number_cards}
use kan_pad.Frontend.Queries.{QueryClient}
use kan_pad.Frontend.Queries.CardKeys.{CardsKey, column, column_of_key}
use kan_pad.Summary.{CardSummary}

abbrev pub Cards : Type 0
Cards = List CardSummary

-- `previousCards`: the cards under the key `['cards', columnId]`, for each column
abbrev pub Previous : Type 0
Previous = List (ℕ × Option Cards)

-- the first query that has the card: its `queryKey[1]`, the card, and the query's cards
unfoldable pub query_with : ℕ → List (CardsKey × Option Cards) → Option (ℕ × CardSummary × Cards)
unfolding find column_of_key
query_with id [] = none
query_with id ((k, none) ∷ queries) = query_with id queries
query_with id ((k, some cards) ∷ queries) =
    let rest = query_with id queries in
    elim (find (has_id id) cards) [ none ↦ rest | some c ↦ some (column_of_key k, c, cards) ]

-- `old?.filter((c) => c.id !== id)`
unfoldable pub drop_card : ℕ → Option Cards → Option Cards
drop_card id none = none
drop_card id (some cards) = some (select (λ c. not (has_id id c)) cards)

-- `[...(old || []), {...cardToMove, column_id}]`
unfoldable pub add_card : CardSummary → ℕ → Option Cards → Option Cards
add_card c target old =
    some
      (get_or old [] ++ record c { card = record (CardSummary.card c) { column_id = target } } ∷ [])

-- the updater of `useReorderCard`
unfoldable pub reorder_in : ℕ → ℕ → Option Cards → Option Cards
unfolding find_index insert_at remove_at nth number_cards
reorder_in id position none = some []
reorder_in id position (some old) = elim (find_index (has_id id) old) [
  | none ↦ some old
  | some index ↦ elim (nth old index) [
    | none ↦ some old
    | some removed ↦
        let moved = record removed {
          card = record (CardSummary.card removed) { position = pos position };
        } in
        some (number_cards 0 (insert_at position moved (remove_at index old)))
  ]
]

-- The mutations with their variables. The target of a move is `data.column_id`: absent, `null` or
-- an id; the position of a reordering is not negative.
pub data Mutation : Type 0 where
  move_card : ℕ → Option (Option ℕ) → Mutation
  reorder_card : ℕ → ℕ → Mutation
  delete_card : ℕ → Mutation

module _ {S : Type 0} (q : QueryClient S CardsKey Cards) where
  -- `useMoveCard`
  unfoldable pub move_to_column : ℕ → ℕ → S → S × Previous
  unfolding query_with drop_card add_card map_set
  move_to_column id target s = elim (query_with id (q.get_queries_data s)) [
    | none ↦ (s, [])
    | some (source, card, cards) ↦
        let taken = q.set_query_data s (column source) (drop_card id) in
        let previous = map_set source (some cards) [] in
        if source == target then (s, previous) else (
          q.set_query_data taken (column target) (add_card card target),
          map_set target (q.get_query_data taken (column target)) previous,
        )
  ]

  -- `useReorderCard`
  unfoldable pub reorder_in_column : ℕ → ℕ → S → S × Previous
  unfolding query_with reorder_in
  reorder_in_column id position s = elim (query_with id (q.get_queries_data s)) [
    | none ↦ (s, [])
    | some (source, _, cards) ↦
        (q.set_query_data s (column source) (reorder_in id position), (source, some cards) ∷ [])
  ]

  -- the loop of `useDeleteCard` over the queries
  unfoldable pub delete_in : ℕ → List (CardsKey × Option Cards) → S → S × Previous
  unfolding find drop_card column_of_key
  delete_in id [] s = (s, [])
  delete_in id ((k, none) ∷ queries) s = delete_in id queries s
  delete_in id ((k, some cards) ∷ queries) s =
      let skipped = delete_in id queries s in
      let (after, previous) =
        delete_in id queries (q.set_query_data s (column (column_of_key k)) (drop_card id)) in
      elim (find (has_id id) cards) [
        | none ↦ skipped
        | some c ↦ (after, (column_of_key k, some cards) ∷ previous)
      ]

  -- `onMutate`, whose `cancelQueries` stops the fetches under way
  unfoldable pub on_mutate : Mutation → S → S × Previous
  unfolding move_to_column reorder_in_column delete_in
  on_mutate (move_card id none) s = (s, [])
  on_mutate (move_card id (some none)) s = (s, [])
  on_mutate (move_card id (some (some target))) s = move_to_column id target s
  on_mutate (reorder_card id position) s = reorder_in_column id position s
  on_mutate (delete_card id) s = delete_in id (q.get_queries_data s) s

  -- `onError`, with the context that `onMutate` returned
  unfoldable pub on_error : Previous → S → S
  on_error [] s = s
  on_error ((column_id, cards) ∷ previous) s =
      on_error previous (q.set_query_data s (column column_id) (λ old. cards))
