-- ===== src/Frontend/Drag/Lookup.antt =====
-- What the handlers find in the columns that are shown, and the events of a drop.
use kan_pad.Base.{
  ℕ, ◌≡◌, refl, inl, inr, false, List, [], ◌∷◌, map, some, arith, any, ◌==◌, Bool-cases,
  if◌then◌else◌,
}
use kan_pad.Base.JsMap.{map_get}
use kan_pad.Cards.CrossMove.{send_to}
use kan_pad.Cards.Reorder.{move_to}
use kan_pad.Cards.Service.{update}
use kan_pad.Columns.View.{ColumnView}
use kan_pad.Frontend.Arrays.{find, insert_at, without}
use kan_pad.Frontend.Drag.{
  DragData, Over, DragEvent, DragState, Request, reorder_card, move_card, id_of, has_id, is_column,
  id_of_column, moved_card,
}
use kan_pad.Frontend.Drag.Places.{Agrees}
use kan_pad.Frontend.Drag.Drop.{drop_column, other_cards}
use kan_pad.Frontend.Drag.Kept.{ids, ids-number_cards, ids-insert_at, ids-other_cards}
use kan_pad.Store.Action.{Action}
use kan_pad.Store.Entities.{Card}
use kan_pad.Store.Repository.{Orm}
use kan_pad.Summary.{CardSummary}

-- `updateCard(id, data)` of `useMoveCard` and `useReorderCard`, answered by the server
unfoldable pub send : Orm → ℕ → Request → Action Card
send o user_id (reorder_card id position) = update o id user_id (move_to position)
send o user_id (move_card id column_id position) = update o id user_id (send_to column_id position)

-- the order of each column that the client shows
unfoldable pub shown_of : List ColumnView → List (ℕ × List ℕ)
shown_of = map (λ v. (id_of_column v, ids (ColumnView.cards v)))

-- Every column that is shown has the order of the table.
abbrev pub IsShown : List ColumnView → List Card → Type 0
IsShown columns t = (k : ℕ) (l : List ℕ) → map_get (shown_of columns) k ≡ some l → Agrees l k t

module _ (g : ColumnView → List ℕ) (k : ℕ) where
  -- what a table of the columns has under the id of one
  pub table-find :
      (columns : List ColumnView) (l : List ℕ)
      → map_get (map (λ v. (id_of_column v, g v)) columns) k ≡ some l
      → (v : ColumnView) × (find (is_column k) columns ≡ some v) × (g v ≡ l)
  unfolding map_get find
  table-find [] l e = absurd (ground arith)
  table-find (v ∷ vs) l e = elim (Bool-cases (id_of_column v == k)) [
    | inl p ↦ (v, rw p refl, ground (arith, e, p))
    | inr p ↦ let (w, a, b) = table-find vs l (ground (arith, e, p)) in (w, rw p a, b)
  ]

  pub find-table :
      (columns : List ColumnView) (v : ColumnView)
      → find (is_column k) columns ≡ some v
      → map_get (map (λ v. (id_of_column v, g v)) columns) k ≡ some (g v)
  unfolding map_get find
  find-table [] v e = absurd (ground arith)
  find-table (w ∷ ws) v e = ground (arith, find-table ws v)

  pub find-map :
      (f : ColumnView → ColumnView) (columns : List ColumnView) (v : ColumnView)
      → ((w : ColumnView) → id_of_column (f w) ≡ id_of_column w)
      → find (is_column k) (map f columns) ≡ some v
      → (w : ColumnView) × (find (is_column k) columns ≡ some w) × (v ≡ f w)
  unfolding find
  find-map f [] v named e = absurd (ground arith)
  find-map f (w ∷ ws) v named e = elim (Bool-cases (id_of_column w == k)) [
    | inl p ↦ (w, rw p refl, ground (arith, e, p, named w))
    | inr p ↦
        let (u, a, b) = find-map f ws v named (ground (arith, e, p, named w)) in (u, rw p a, b)
  ]

pub find-is :
    (k : ℕ) (columns : List ColumnView) (v : ColumnView)
    → find (is_column k) columns ≡ some v
    → id_of_column v ≡ k
unfolding find
find-is k [] v e = absurd (ground arith)
find-is k (w ∷ ws) v e = ground (arith, find-is k ws v)

module _ (id : ℕ) (c : CardSummary) (same : id_of c ≡ id) (source target index : ℕ) where
  pub drop_column-named :
      (v : ColumnView) → id_of_column (drop_column id c source target index v) ≡ id_of_column v
  unfolding drop_column
  drop_column-named v = ground arith

  pub drop_column-ids :
      (v : ColumnView)
      → ids (ColumnView.cards (drop_column id c source target index v)) ≡ (
          if is_column source v
          then without id (ids v.cards)
          else if is_column target v
          then insert_at index id (without id (ids v.cards))
          else ids v.cards)
  unfolding drop_column id_of moved_card
  drop_column-ids v =
      let put = insert_at index (moved_card c target index) (other_cards id v.cards) in
      ground (
        arith,
        same,
        ids-other_cards id v.cards,
        ids-number_cards 0 put,
        ids-insert_at index (moved_card c target index) (other_cards id v.cards),
      )

pub without-uncontained :
    (id : ℕ) (cards : List CardSummary)
    → any (has_id id) cards ≡ false
    → without id (ids cards) ≡ ids cards
without-uncontained id [] e = refl
without-uncontained id (c ∷ cs) e = ground (arith, e, without-uncontained id cs)

pub ==_apart : (m n : ℕ) → (m == n) ≡ false → (n == m) ≡ false
==_apart m n e = ground arith

-- the end of a drag of `c`, which began in a column, over something
abbrev pub drop_event : DragData → Card → CardSummary → Over → DragEvent
drop_event d card c over = record {
  active = some (record d { card_id = card.id; card = some c });
  over = some over;
}

abbrev pub began_in : DragState → ℕ → ℕ → DragState
began_in state column_id index = record state {
  drag_source = some (record { column_id = column_id; index = index });
}
