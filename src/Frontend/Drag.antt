-- ===== src/Frontend/Drag.antt =====
-- frontend/src/features/cards/drag-drop-context.tsx: dragging a card over the columns of a board.
-- The columns are the cached answer of `GET /columns`; `index` values and ids are never negative.
pub mod Drop
pub mod Kept
pub mod Places
pub mod Board
pub mod Lookup
pub mod Agreement
use kan_pad.Base.{
  ℕ, Bool, true, false, not, List, [], ◌∷◌, ◌++◌, map, Option, none, some, length, any, select,
  get_or, ◌==◌, if◌then◌else◌,
}
use kan_pad.Base.Int.{ℤ, pos, ◌-ℤ◌, eqb_ℤ}
use kan_pad.Base.Text.{Text, codes}
use kan_pad.Columns.View.{ColumnView}
use kan_pad.Frontend.Arrays.{find, find_index, insert_at}
use kan_pad.Store.Entities.{BoardColumn, Card}
use kan_pad.Summary.{CardSummary}

-- `UniqueIdentifier` of the drag-and-drop library
pub data DndId : Type 0 where
  number : ℕ → DndId
  string : Text → DndId

-- What the host gives: `Number(text)`, where `none` is NaN, and `arrayMove(array, from, to)` of
-- `@dnd-kit/sortable`.
pub record Host : Type 0 where
  pub to_number : Text → Option ℕ
  pub array_move : List CardSummary → ℕ → ℤ → List CardSummary

-- interface `DragData`: `active.data.current`
pub record DragData : Type 0 where
  pub card_id : ℕ
  pub source_column_id : ℕ
  pub card : Option CardSummary
  pub index : Option ℕ

-- `over.data.current`: a column has `columnId`, a card has `card`
pub record OverData : Type 0 where
  pub column_id : Option ℕ
  pub card : Option CardSummary

pub record Over : Type 0 where
  pub id : DndId
  pub current : Option OverData

-- an event's `active.data.current` and `over`
pub record DragEvent : Type 0 where
  pub active : Option DragData
  pub over : Option Over

pub record DragSource : Type 0 where
  pub column_id : ℕ
  pub index : ℕ

-- the state of the component
pub record DragState : Type 0 where
  pub active_card : Option CardSummary
  pub drag_source : Option DragSource

-- the call of a mutation's `mutateAsync`
pub data Request : Type 0 where
  reorder_card : ℕ → ℤ → Request
  move_card : ℕ → ℕ → ℤ → Request

-- `s.startsWith(prefix)` and `s.slice(prefix.length)` at once
unfoldable pub strip_prefix : Text → Text → Option Text
strip_prefix [] s = some s
strip_prefix (c ∷ p) [] = none
strip_prefix (c ∷ p) (d ∷ s) = let rest = strip_prefix p s in if c == d then rest else none

abbrev pub card_prefix : Text
card_prefix = codes "card-"

abbrev pub column_prefix : Text
column_prefix = codes "column-"

unfoldable pub id_of : CardSummary → ℕ
id_of c = Card.id (CardSummary.card c)

abbrev pub has_id : ℕ → CardSummary → Bool
has_id id c = id_of c == id

abbrev pub is_column : ℕ → ColumnView → Bool
is_column id v = BoardColumn.id (ColumnView.column v) == id

abbrev pub contains : ℕ → ColumnView → Bool
contains id v = any (has_id id) v.cards

-- `a ?? b` of two values that may both be undefined
abbrev pub or_else {ℓ} : {A : Type ℓ} → Option A → Option A → Option A
or_else none b = b
or_else (some a) b = some a

abbrev pub over_card : Over → Option CardSummary
over_card over = elim (Over.current over) [ none ↦ none | some d ↦ OverData.card d ]

abbrev pub over_column_id : Over → Option ℕ
over_column_id over = elim (Over.current over) [ none ↦ none | some d ↦ OverData.column_id d ]

abbrev pub id_of_column : ColumnView → ℕ
id_of_column v = BoardColumn.id (ColumnView.column v)

-- `handleDragStart`
unfoldable pub handle_drag_start : DragEvent → DragState → DragState
handle_drag_start event state = elim (DragEvent.active event) [
  | none ↦ state
  | some d ↦ elim (DragData.card d) [
    | none ↦ state
    | some card ↦ record {
      active_card = some card;
      drag_source = some (record { column_id = d.source_column_id; index = get_or d.index 0 });
    }
  ]
]

-- `newCards.map((c, i) => ({ ...c, position: i }))`, from an index on
unfoldable pub number_cards : ℕ → List CardSummary → List CardSummary
number_cards i [] = []
number_cards i (c ∷ cs) =
    record c { card = record (CardSummary.card c) { position = pos i } } ∷ number_cards (ℕ.suc i) cs

-- the card that arrives in a column
unfoldable pub moved_card : CardSummary → ℕ → ℕ → CardSummary
moved_card c target index = record c {
  card = record (CardSummary.card c) { column_id = target; position = pos index };
}

-- where a card of the column stands: `findIndex`, or past the end
unfoldable pub insert_index : Over → List CardSummary → ℕ
unfolding find_index
insert_index over cards = elim (over_card over) [
  | none ↦ length cards
  | some c ↦ get_or (find_index (has_id (id_of c)) cards) (length cards)
]

module _ (h : Host) where
  unfoldable pub get_card_id_from_dnd_id : DndId → Option ℕ
  unfolding strip_prefix
  get_card_id_from_dnd_id (number n) = some n
  get_card_id_from_dnd_id (string s) = elim (strip_prefix card_prefix s) [
    | some rest ↦ h.to_number rest
    | none ↦ h.to_number s
  ]

  unfoldable pub get_column_id_from_dnd_id : DndId → Option ℕ
  unfolding strip_prefix
  get_column_id_from_dnd_id (number n) = some n
  get_column_id_from_dnd_id (string s) = elim (strip_prefix column_prefix s) [
    | some rest ↦ h.to_number rest
    | none ↦ none
  ]

  -- the column with the card `overCardId`; `c.id === undefined` holds of no card
  abbrev pub column_with : Option ℕ → List ColumnView → Option ColumnView
  column_with none columns = none
  column_with (some id) columns = find (contains id) columns

  -- the column that the card is over, as both handlers compute it
  unfoldable pub target_column_id : Over → List ColumnView → ℕ → ℕ
  unfolding find
  target_column_id over columns source = elim (over_column_id over) [
    | some id ↦ id
    | none ↦
        elim (column_with
          (or_else (get_card_id_from_dnd_id over.id)
            (elim (over_card over) [ none ↦ none | some c ↦ some (id_of c) ]))
          columns) [
            | some v ↦ id_of_column v
            | none ↦ get_or (get_column_id_from_dnd_id over.id) source
          ]
  ]
