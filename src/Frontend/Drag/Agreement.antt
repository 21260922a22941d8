-- ===== src/Frontend/Drag/Agreement.antt =====
-- A card is dragged to another column: what the client shows at the drop, and what the request of
-- the drop makes of the database.
use mathlib.Core.Path.{subst, subst₂}
use kan_pad.Base.{
  ℕ, ◌≤◌, ◌≡◌, refl, ap, ◌∙◌, sym, inl, inr, false, List, map, some, arith, get_or, length, Member,
  ◌==◌, ==_iff, Bool-cases, if◌then◌else◌,
}
use kan_pad.Base.Int.{pos}
use kan_pad.Base.JsMap.{map_get}
use kan_pad.Cards.CrossMove.{update-transferred}
use kan_pad.Cards.Dense.{IsDense}
use kan_pad.Cards.Ownership.{OwnsCard, OwnsColumn}
use kan_pad.Cards.Transfer.{transferred}
use kan_pad.Columns.View.{ColumnView}
use kan_pad.Frontend.Arrays.{find, insert_at, without}
use kan_pad.Frontend.Drag.{
  Host, DragData, Over, DragSource, DragState, move_card, id_of, contains, is_column, id_of_column,
  insert_index, target_column_id,
}
use kan_pad.Frontend.Drag.Places.{Agrees, length-Agrees}
use kan_pad.Frontend.Drag.Board.{leave-Agrees, enter-Agrees, beside-Agrees, absent}
use kan_pad.Frontend.Drag.Drop.{handle_drag_end, drop_from, drop_within, drop_across, drop_column}
use kan_pad.Frontend.Drag.Kept.{ids, rest_of, Dragged, Dragged-rest}
use kan_pad.Store.Distinct.{Distinct}
use kan_pad.Store.Entities.{BoardColumn, Card, Db}
use kan_pad.Store.Keyed.{IsKeyed}
use kan_pad.Store.Laws.{IsLawful}
use kan_pad.Store.Repository.{Orm}
use kan_pad.Summary.{CardSummary}
use kan_pad.Frontend.Drag.Lookup.{
  send, shown_of, IsShown, table-find, find-table, find-map, find-is, drop_column-named,
  drop_column-ids, without-uncontained, ==_apart, drop_event, began_in,
}

module _ (h : Host) (card : Card) (column : BoardColumn)
    (apart : (card.column_id == column.id) ≡ false) (columns : List ColumnView) (d : DragData)
    (c : CardSummary) (over : Over) (same : id_of c ≡ card.id) where
  drop_from-found :
      (dropped : DragData) (from : DragSource) (source : ColumnView)
      → find (is_column from.column_id) columns ≡ some source
      → drop_from h dropped c over from columns ≡ (
          if id_of_column source == target_column_id h over columns (id_of_column source)
          then drop_within h dropped over from source columns
          else drop_across h dropped c over
              (id_of_column source)
              (target_column_id h over columns (id_of_column source))
              columns)
  unfolding drop_from
  drop_from-found dropped from source there = rw (drop_from, there) refl

  handle_drag_end-across :
      (state : DragState) (from_index : ℕ) (source t : ColumnView)
      → find (is_column card.column_id) columns ≡ some source
      → target_column_id h over columns card.column_id ≡ column.id
      → find (is_column column.id) columns ≡ some t
      → handle_drag_end h
          (drop_event d card c over)
          (began_in state card.column_id from_index)
          columns
        ≡ (
          map (drop_column card.id c card.column_id column.id (insert_index over t.cards)) columns,
          some (move_card card.id column.id (pos (insert_index over t.cards))),
        )
  unfolding handle_drag_end drop_across
  handle_drag_end-across state from_index source t there to found =
      let is = find-is card.column_id columns source there in
      let dropped = record d { card_id = card.id; card = some c } in
      let across : drop_across h dropped c over card.column_id column.id columns ≡ (
        map (drop_column card.id c card.column_id column.id (insert_index over t.cards)) columns,
        some (move_card card.id column.id (pos (insert_index over t.cards))),
      ) =
        rw (drop_across, found) refl in
      let from : DragSource = record { column_id = card.column_id; index = from_index } in
      let step =
        subst
          (λ i. drop_from h dropped c over from columns ≡ (
            if i == target_column_id h over columns i
            then drop_within h dropped over from source columns
            else drop_across h dropped c over i (target_column_id h over columns i) columns))
          is (drop_from-found dropped from source there) in
      rw (to, apart) at step ∙ across

  module _ (start : List ColumnView) (t : List Card) (distinct : Distinct Card.id t)
      (here : Member card t) (shown : IsShown start t)
      (moved : rest_of card.id columns ≡ rest_of card.id start) where
    -- what a column holds but for the card, it held at the start
    began :
        (k : ℕ) (w : ColumnView)
        → find (is_column k) columns ≡ some w
        → (m : List ℕ) × (without card.id (ids w.cards) ≡ without card.id m) × Agrees m k t
    unfolding shown_of rest_of
    began k w e =
        let now = find-table (λ v. without card.id (ids v.cards)) k columns w e in
        let (v, f, p) =
          table-find (λ v. without card.id (ids v.cards)) k start _
            (ap (λ r. map_get r k) (sym moved) ∙ now) in
        (ids v.cards, sym p, shown k (ids v.cards) (find-table (λ v. ids v.cards) k start v f))

    module _ (index : ℕ) where
      abbrev arrived : List Card
      arrived = map (transferred card column.id (pos index)) t

      drop_column-Agrees :
          (k : ℕ) (w : ColumnView)
          → find (is_column k) columns ≡ some w
          → (k ≡ column.id → index ≤ length (without card.id (ids w.cards)))
          → ((k == card.column_id) ≡ false
              → (k == column.id) ≡ false
              → without card.id (ids w.cards) ≡ ids w.cards)
          → Agrees
              (ids (ColumnView.cards (drop_column card.id c card.column_id column.id index w)))
              k
              arrived
      drop_column-Agrees k w e range beside =
          let (m, rest, agrees) = began k w e in
          let is = find-is k columns w e in
          let read =
            subst
              (λ i.
                ids (ColumnView.cards (drop_column card.id c card.column_id column.id index w)) ≡ (
                  if i == card.column_id
                  then without card.id (ids w.cards)
                  else if i == column.id
                  then insert_at index card.id (without card.id (ids w.cards))
                  else ids w.cards))
              is (drop_column-ids card.id c same card.column_id column.id index w) in
          elim (Bool-cases (k == card.column_id)) [
            | inl p ↦
                let q = (==_iff _ _).0 p in
                let old = subst (λ i. Agrees m i t) q agrees in
                let left = leave-Agrees card column.id index apart t distinct here m old in
                subst₂ (λ l i. Agrees l i arrived) (sym (ground (arith, read, p, rest))) (sym q)
                  left
            | inr p ↦ elim (Bool-cases (k == column.id)) [
              | inl q ↦
                  let r = (==_iff _ _).0 q in
                  let old = subst (λ i. Agrees m i t) r agrees in
                  let alone = absent card column.id index apart t distinct here m old in
                  let entered =
                    enter-Agrees card column.id index apart t distinct here m old
                      (rw (← alone, ← rest) (range r)) in
                  subst₂ (λ l i. Agrees l i arrived) (sym (ground (arith, read, p, q, rest, alone)))
                    (sym r) entered
              | inr q ↦
                  let away = ==_apart k card.column_id p in
                  let alone = absent card k index away t distinct here m agrees in
                  let kept =
                    beside-Agrees card column.id index apart t distinct here m k p q agrees in
                  subst (λ l. Agrees l k arrived)
                    (sym (ground (arith, read, p, q, rest, alone, beside p q))) kept
            ]
          ]

module _ (o : Orm) (laws : IsLawful o) (h : Host) (card : Card) (column : BoardColumn) (db : Db)
    (keyed : IsKeyed db) (apart : (card.column_id == column.id) ≡ false) (user_id : ℕ)
    (owns : OwnsCard db user_id card) (owns_column : OwnsColumn db user_id column)
    (source_dense : IsDense card.column_id db.cards) (dense : IsDense column.id db.cards) where
  -- A user drags one of their cards from a column, over any cards and columns, and drops it on
  -- another of their columns. At the start the client shows each column in the order of the table,
  -- and the positions of both columns are 0 … without gaps. At the drop no third column shows the
  -- card, and its place among the other cards of the target column is none past their end. Then the
  -- drop sends one request, which moves the card to that place; and when the server has answered
  -- it, the client shows each column in the order of the table again.
  pub handle_drag_end-IsShown :
      {start columns : List ColumnView}
      → Dragged h card.id start columns
      → IsShown start db.cards
      → (state : DragState) (from_index : ℕ) (d : DragData) (c : CardSummary) (over : Over)
        (source t : ColumnView)
      → id_of c ≡ card.id
      → find (is_column card.column_id) columns ≡ some source
      → target_column_id h over columns card.column_id ≡ column.id
      → find (is_column column.id) columns ≡ some t
      → insert_index over t.cards ≤ length (without card.id (ids t.cards))
      → ((k : ℕ) (w : ColumnView)
          → (k == card.column_id) ≡ false
          → (k == column.id) ≡ false
          → find (is_column k) columns ≡ some w
          → contains card.id w ≡ false)
      → (after : List ColumnView) × (handle_drag_end h
            (drop_event d card c over)
            (began_in state card.column_id from_index)
            columns
          ≡ (after, some (move_card card.id column.id (pos (insert_index over t.cards)))))
        × IsShown after (
            Db.cards
              (send o user_id (move_card card.id column.id (pos (insert_index over t.cards))) db).1)
  unfolding send shown_of
  handle_drag_end-IsShown {start} {columns} dragged shown state from_index d c over source t same
        there to found range elsewhere =
      let index = insert_index over t.cards in
      let moved = Dragged-rest h dragged in
      let drop = drop_column card.id c card.column_id column.id index in
      let (m, rest, agrees) =
        began h card column apart columns d c over same start db.cards keyed.cards owns.card_in
          shown moved column.id t found in
      let short = length-Agrees m column.id db.cards agrees dense in
      let alone = absent card column.id index apart db.cards keyed.cards owns.card_in m agrees in
      let at_most : index ≤ length m = rw (← alone, ← rest) range in
      let served =
        (update-transferred o laws card column (pos index) db keyed apart dense
          (omega arith, omega (arith, at_most, short)) user_id owns owns_column source_dense).0 in
      (
        map drop columns,
        handle_drag_end-across h card column apart columns d c over same state from_index source t
            there to found,
        λ k l e.
            let (v, f, p) = table-find (λ v. ids v.cards) k (map drop columns) l e in
            let (w, g, q) =
              find-map (λ v. ids v.cards) k drop columns v
                (drop_column-named card.id c same card.column_id column.id index) f in
            let bound : k ≡ column.id → index ≤ length (without card.id (ids w.cards)) = λ r.
              let g' = subst (λ i. find (is_column i) columns ≡ some w) r g in
              subst (λ (x : ColumnView). index ≤ length (without card.id (ids x.cards)))
                (ap (λ z. get_or z t) (sym found ∙ g')) range in
            let kept =
              drop_column-Agrees h card column apart columns d c over same start db.cards
                keyed.cards owns.card_in shown moved index k w g bound
                (λ a b. without-uncontained card.id w.cards (elsewhere k w a b g)) in
            subst₂ (λ order rows. Agrees order k rows)
              (ap (λ x. ids (ColumnView.cards x)) (sym q) ∙ p) (sym (ap (λ r. Db.cards r.1) served))
              kept,
      )
