-- ===== src/Frontend/Drag/Drop.antt =====
-- `handleDragOver`, `handleDragEnd` and `handleDragCancel` of drag-drop-context.tsx. The columns
-- cache under the key `['columns', boardId]` is `none` before its first answer.
use kan_pad.Base.{
  ℕ, Bool, true, false, not, List, map, Option, none, some, length, select, ◌==◌, if◌then◌else◌,
}
use kan_pad.Base.Int.{ℤ, pos, ◌-ℤ◌, eqb_ℤ}
use kan_pad.Base.Text.{Text, codes}
use kan_pad.Columns.View.{ColumnView}
use kan_pad.Frontend.Arrays.{find, find_index, insert_at}
use kan_pad.Frontend.Drag.{
  Host, DragData, Over, DragEvent, DragSource, DragState, Request, reorder_card, move_card, id_of,
  has_id, is_column, contains, id_of_column, over_card, insert_index, number_cards, moved_card,
  target_column_id,
}
use kan_pad.Summary.{CardSummary}

abbrev pub other_cards : ℕ → List CardSummary → List CardSummary
other_cards id = select (λ c. not (has_id id c))

-- `setColumns` of `handleDragOver`: the card leaves the column it is shown in, and enters another.
unfoldable pub over_column : ℕ → CardSummary → ℕ → ℕ → ℕ → ColumnView → ColumnView
unfolding insert_at number_cards moved_card
over_column card_id card source target index v =
    if is_column source v
    then record v { cards = other_cards card_id v.cards }
    else if is_column target v
    then record v {
      cards = number_cards 0 (insert_at index (moved_card card target index) v.cards);
    }
    else v

-- `setColumns` of a drop in another column
unfoldable pub drop_column : ℕ → CardSummary → ℕ → ℕ → ℕ → ColumnView → ColumnView
unfolding insert_at number_cards moved_card
drop_column card_id card source target index v =
    if is_column source v
    then record v { cards = other_cards card_id v.cards }
    else if is_column target v
    then record v {
      cards =
          number_cards 0
            (insert_at index (moved_card card target index) (other_cards card_id v.cards));
    }
    else v

-- `cards.length - 1` where the card under the pointer is not in the column
unfoldable pub new_index : Over → List CardSummary → ℤ
unfolding find_index
new_index over cards = elim (over_card over) [
  | none ↦ pos (length cards) -ℤ pos 1
  | some c ↦ elim (find_index (has_id (id_of c)) cards) [
    | none ↦ pos (length cards) -ℤ pos 1
    | some i ↦ pos i
  ]
]

module _ (h : Host) where
  unfoldable pub over_columns : DragData → CardSummary → Over → List ColumnView → List ColumnView
  unfolding find target_column_id insert_index over_column
  over_columns dragged card over columns = elim (find (contains dragged.card_id) columns) [
    | none ↦ columns
    | some source ↦
        let target = target_column_id h over columns (id_of_column source) in
        let there = find (is_column target) columns in
        if id_of_column source == target then columns else elim there [
          | none ↦ columns
          | some t ↦
              map
                (over_column dragged.card_id card (id_of_column source) target
                  (insert_index over t.cards))
                columns
        ]
  ]

  -- `handleDragOver`, which calls no mutation
  unfoldable pub handle_drag_over : DragEvent → List ColumnView → List ColumnView
  unfolding over_columns
  handle_drag_over event columns = elim (DragEvent.over event) [
    | none ↦ columns
    | some over ↦ elim (DragEvent.active event) [
      | none ↦ columns
      | some dragged ↦ elim (DragData.card dragged) [
        | none ↦ columns
        | some card ↦ over_columns dragged card over columns
      ]
    ]
  ]

  -- a drop in the column where the drag began
  unfoldable pub drop_within :
      DragData → Over → DragSource → ColumnView → List ColumnView → List ColumnView × Option Request
  unfolding new_index number_cards
  drop_within dragged over from source columns =
      let index = new_index over source.cards in
      let reorder = λ (v : ColumnView).
        if is_column (id_of_column source) v
        then record v { cards = number_cards 0 (h.array_move v.cards from.index index) }
        else v in
      if eqb_ℤ (pos from.index) index
      then (columns, none)
      else (map reorder columns, some (reorder_card dragged.card_id index))

  -- a drop in another column
  unfoldable pub drop_across :
      DragData → CardSummary → Over → ℕ → ℕ → List ColumnView → List ColumnView × Option Request
  unfolding find insert_index drop_column
  drop_across dragged card over source target columns = elim (find (is_column target) columns) [
    | none ↦ (columns, none)
    | some t ↦
        let index = insert_index over t.cards in
        (
          map (drop_column dragged.card_id card source target index) columns,
          some (move_card dragged.card_id target (pos index)),
        )
  ]

  unfoldable pub drop_from :
      DragData
      → CardSummary
      → Over
      → DragSource
      → List ColumnView
      → List ColumnView × Option Request
  unfolding find target_column_id drop_within drop_across
  drop_from dragged card over from columns = elim (find (is_column from.column_id) columns) [
    | none ↦ (columns, none)
    | some source ↦
        let target = target_column_id h over columns (id_of_column source) in
        if id_of_column source == target
        then drop_within dragged over from source columns
        else drop_across dragged card over (id_of_column source) target columns
  ]

  -- `handleDragEnd` up to the call of a mutation
  unfoldable pub handle_drag_end :
      DragEvent → DragState → List ColumnView → List ColumnView × Option Request
  unfolding drop_from
  handle_drag_end event state columns = elim (DragEvent.over event) [
    | none ↦ (columns, none)
    | some over ↦ elim (DragEvent.active event) [
      | none ↦ (columns, none)
      | some dragged ↦ elim (DragData.card dragged) [
        | none ↦ (columns, none)
        | some card ↦ elim (DragState.drag_source state) [
          | none ↦ (columns, none)
          | some from ↦ drop_from dragged card over from columns
        ]
      ]
    ]
  ]

-- The end of a mutation of `handleDragEnd`: the title of the toast, and whether the columns are
-- fetched again.
unfoldable pub settle_drop : Request → Bool → Text × Bool
settle_drop (reorder_card id position) true = (codes "Card reordered", false)
settle_drop (reorder_card id position) false = (codes "Failed to reorder card", true)
settle_drop (move_card id column_id position) true = (codes "Card moved", false)
settle_drop (move_card id column_id position) false = (codes "Failed to move card", true)

-- what the timer of `handleDragEnd` does, and `handleDragCancel`, which fetches the columns again
unfoldable pub clear_drag : DragState → DragState
clear_drag state = record { active_card = none; drag_source = none }
