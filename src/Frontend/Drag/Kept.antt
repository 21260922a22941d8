-- ===== src/Frontend/Drag/Kept.antt =====
-- What a drag shows: the ids of each column.
use kan_pad.Base.{
  ℕ, zero, suc, ◌≡◌, refl, ap, ap₂, ◌∙◌, sym, inl, inr, List, [], ◌∷◌, map, some, arith, ◌==◌,
  Bool-cases, Option-cases,
}
use kan_pad.Columns.View.{ColumnView}
use kan_pad.Frontend.Arrays.{find, insert_at, without, without-without, without-insert_at}
use kan_pad.Frontend.Drag.{
  Host, DragData, Over, DragEvent, id_of, is_column, contains, id_of_column, insert_index,
  number_cards, moved_card, target_column_id,
}
use kan_pad.Frontend.Drag.Drop.{other_cards, over_column, handle_drag_over, over_columns}
use kan_pad.Summary.{CardSummary}

abbrev pub ids : List CardSummary → List ℕ
ids = map id_of

pub ids-number_cards : (i : ℕ) (cs : List CardSummary) → ids (number_cards i cs) ≡ ids cs
unfolding number_cards id_of
ids-number_cards i [] = refl
ids-number_cards i (c ∷ cs) = ap (◌∷◌ (id_of c)) (ids-number_cards (suc i) cs)

pub ids-insert_at :
    (i : ℕ) (c : CardSummary) (cs : List CardSummary)
    → ids (insert_at i c cs) ≡ insert_at i (id_of c) (ids cs)
unfolding insert_at
ids-insert_at zero c cs = refl
ids-insert_at (suc i) c [] = refl
ids-insert_at (suc i) c (d ∷ ds) = ap (◌∷◌ (id_of d)) (ids-insert_at i c ds)

pub ids-other_cards :
    (id : ℕ) (cs : List CardSummary) → ids (other_cards id cs) ≡ without id (ids cs)
ids-other_cards id [] = refl
ids-other_cards id (c ∷ cs) = ground (arith, ids-other_cards id cs)

-- The columns without the dragged card: the id of each, and the ids of its other cards in order.
unfoldable pub rest_of : ℕ → List ColumnView → List (ℕ × List ℕ)
rest_of id = map (λ v. (id_of_column v, without id (ids (ColumnView.cards v))))

module _ (id : ℕ) (card : CardSummary) (same : id_of card ≡ id) where
  over_column-without :
      (source target index : ℕ) (v : ColumnView)
      → without id (ids (ColumnView.cards (over_column id card source target index v)))
        ≡ without id (ids v.cards)
  unfolding over_column id_of moved_card
  over_column-without source target index v =
      let put = insert_at index (moved_card card target index) v.cards in
      ground (
        arith,
        same,
        ids-other_cards id v.cards,
        without-without id (ids v.cards),
        ids-number_cards 0 put,
        ids-insert_at index (moved_card card target index) v.cards,
        without-insert_at id index (ids v.cards),
      )

  over_column-named :
      (source target index : ℕ) (v : ColumnView)
      → id_of_column (over_column id card source target index v) ≡ id_of_column v
  unfolding over_column
  over_column-named source target index v = ground arith

  pub over_column-rest :
      (source target index : ℕ) (columns : List ColumnView)
      → rest_of id (map (over_column id card source target index) columns) ≡ rest_of id columns
  unfolding rest_of
  over_column-rest source target index [] = refl
  over_column-rest source target index (v ∷ vs) =
      let one = over_column-without source target index v in
      let named = over_column-named source target index v in
      ap₂ ◌∷◌ (ap₂ (λ i l. (i, l)) named one) (over_column-rest source target index vs)

-- An event of the drag of the card `id`.
pub record IsDragOf (id : ℕ) (event : DragEvent) : Type 0 where
  pub card_id : (d : DragData) → DragEvent.active event ≡ some d → d.card_id ≡ id
  pub card :
      (d : DragData) (c : CardSummary)
      → DragEvent.active event ≡ some d
      → DragData.card d ≡ some c
      → id_of c ≡ id

module _ (h : Host) where
  over_columns-rest :
      (d : DragData) (card : CardSummary) (over : Over) (columns : List ColumnView)
      → id_of card ≡ d.card_id
      → rest_of d.card_id (over_columns h d card over columns) ≡ rest_of d.card_id columns
  unfolding over_columns
  over_columns-rest d card over columns same =
      elim (Option-cases (find (contains d.card_id) columns)) [
        | inl e ↦ rw (over_columns, e) refl
        | inr (source, e) ↦
            let from = id_of_column source in
            let target = target_column_id h over columns from in
            elim (Bool-cases (from == target)) [
              | inl b ↦ rw (over_columns, e, b) refl
              | inr b ↦ elim (Option-cases (find (is_column target) columns)) [
                | inl f ↦ rw (over_columns, e, b, f) refl
                | inr (t, f) ↦
                    rw (over_columns, e, b, f)
                      (over_column-rest d.card_id card same from target (insert_index over t.cards)
                        columns)
              ]
            ]
      ]

  -- the columns that a user can see during the drag of a card, from those at its start
  pub data Dragged (id : ℕ) (start : List ColumnView) : List ColumnView → Type 0 where
    begin : Dragged id start start
    over :
        {columns : List ColumnView} (event : DragEvent)
        → Dragged id start columns
        → IsDragOf id event
        → Dragged id start (handle_drag_over h event columns)

  handle_drag_over-rest :
      (id : ℕ) (event : DragEvent) (columns : List ColumnView)
      → IsDragOf id event
      → rest_of id (handle_drag_over h event columns) ≡ rest_of id columns
  unfolding handle_drag_over
  handle_drag_over-rest id event columns of_drag = elim (Option-cases (DragEvent.over event)) [
    | inl e ↦ rw e refl
    | inr e ↦ elim (Option-cases (DragEvent.active event)) [
      | inl a ↦ rw (e.1, a) refl
      | inr a ↦ elim (Option-cases (DragData.card a.0)) [
        | inl c ↦ rw (e.1, a.1, c) refl
        | inr c ↦
            let named = of_drag.card_id a.0 a.1 in
            let same = of_drag.card a.0 c.0 a.1 c.1 in
            rw (e.1, a.1, c.1, ← named) (over_columns-rest a.0 c.0 e.0 columns (same ∙ sym named))
      ]
    ]
  ]

  -- Whatever a card is dragged over, the columns that are shown hold the other cards as before the
  -- drag: each column has the same id, and its cards but for the dragged one have the same ids in
  -- the same order.
  pub Dragged-rest :
      {id : ℕ} {start columns : List ColumnView}
      → Dragged id start columns
      → rest_of id columns ≡ rest_of id start
  Dragged-rest begin = refl
  Dragged-rest {id} (over {columns} event before of_drag) =
      handle_drag_over-rest id event columns of_drag ∙ Dragged-rest before
