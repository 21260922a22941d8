-- ===== src/Columns/View.antt =====
-- backend/src/columns/columns.service.ts: the card summaries of columns.
use kan_pad.Base.{ℕ, List, [], ◌∷◌, ◌++◌, map, get_or, if◌then◌else◌}
use kan_pad.Base.Int.{ℤ, leb_ℤ}
use kan_pad.Base.JsMap.{map_get, map_set}
use kan_pad.Store.Cascade.{is_in}
use kan_pad.Store.Entities.{BoardColumn, Card, Db}
use kan_pad.Store.Repository.{Orm, asc}
use kan_pad.Summary.{
  CardSummary, summary_row, attach_description_flags, card_ids, progress_rows, progress_map,
  set_progress,
}

-- a column with its card summaries
pub record ColumnView : Type 0 where
  pub column : BoardColumn
  pub cards : List CardSummary

-- `.sort((a, b) => a.position - b.position)`, which is stable
abbrev position_of : CardSummary → ℤ
position_of c = Card.position (CardSummary.card c)

insert_sorted : CardSummary → List CardSummary → List CardSummary
insert_sorted c [] = c ∷ []
insert_sorted c (d ∷ ds) =
    if leb_ℤ (position_of c) (position_of d) then c ∷ d ∷ ds else d ∷ insert_sorted c ds

unfoldable pub sort_by_position : List CardSummary → List CardSummary
unfolding insert_sorted
sort_by_position [] = []
sort_by_position (c ∷ cs) = insert_sorted c (sort_by_position cs)

-- the loop of `findSummaryCardsByColumnIds` that fills `byColumn`
unfoldable pub group_by_column :
    List CardSummary → List (ℕ × List CardSummary) → List (ℕ × List CardSummary)
unfolding map_get map_set
group_by_column [] m = m
group_by_column (c ∷ cs) m =
    let column_id = Card.column_id (CardSummary.card c) in
    group_by_column cs (map_set column_id (get_or (map_get m column_id) [] ++ c ∷ []) m)

module _ (o : Orm) where
  -- `findSummaryCardsByColumnIds`
  unfoldable pub find_summary_cards_by_column_ids : Db → List ℕ → List (ℕ × List CardSummary)
  unfolding group_by_column summary_row attach_description_flags
  find_summary_cards_by_column_ids db [] = []
  find_summary_cards_by_column_ids db (i ∷ ids) =
      let cards =
        o.cards.find_ordered asc Card.position (λ c. is_in (i ∷ ids) (Card.column_id c)) db.cards in
      group_by_column (attach_description_flags o db (map (summary_row db) cards)) []

  -- `column.cards = (cardsByColumn.get(column.id) ?? []).sort(…)`
  unfoldable pub with_cards : List (ℕ × List CardSummary) → BoardColumn → ColumnView
  unfolding sort_by_position map_get
  with_cards by_column column = record {
    column = column;
    cards = sort_by_position (get_or (map_get by_column column.id) []);
  }

  abbrev pub all_cards : List ColumnView → List CardSummary
  all_cards [] = []
  all_cards (v ∷ vs) = v.cards ++ all_cards vs

  abbrev pub set_column_progress : Db → List CardSummary → ColumnView → ColumnView
  set_column_progress db cards v = record v {
    cards = map (set_progress (progress_map o (progress_rows db (card_ids cards)) [])) v.cards;
  }

  -- `enrichWithProgress` writes into the cards that the columns share.
  unfoldable pub enrich_with_progress : Db → List ColumnView → List ColumnView
  unfolding progress_map progress_rows set_progress
  enrich_with_progress db columns = map (set_column_progress db (all_cards columns)) columns
