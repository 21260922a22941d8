-- ===== src/Filters.antt =====
-- frontend/src/features/boards/board-view: the search by title (filter-cards-by-title.ts) and the
-- filters of a board (filter-columns-by-filters.ts).
pub mod Meets
pub mod Selection
pub mod Search
use kan_pad.Base.{
  ℕ, Bool, true, false, not, ◌&&◌, ◌||◌, List, [], ◌∷◌, map, Option, none, some, length, select,
  any, all, get_or, ltb, ◌==◌, is_some, if◌then◌else◌,
}
use kan_pad.Base.Int.{ℤ, ltb_ℤ, leb_ℤ}
use kan_pad.Base.Text.{Text, text_eq, is_empty, trim}
use kan_pad.Summary.{Progress}

-- What the functions call of the engine: `toLowerCase`, and `Date` at the time of the call. `parse`
-- is `new Date(text)` in milliseconds, without a value for an invalid date.
pub record Engine : Type 0 where
  pub to_lower_case : Text → Text
  pub parse : Text → Option ℤ
  -- `today`, the start of the day, and `windowEnd`, the start of the day a week later
  pub today : ℤ
  pub window_end : ℤ
  -- the year, the month and the day of a time are those of `today`
  pub is_today : ℤ → Bool

-- The fields of a card and of a column that the functions read; a field may be undefined.
pub record CardView : Type 0 where
  pub title : Text
  pub labels : Option (List Text)
  pub due_date : Option Text
  pub checklist_progress : Option Progress

pub record Column : Type 0 where
  pub id : ℕ
  pub cards : Option (List CardView)

pub data DueDateFilter : Type 0 where
  overdue today this_week no_date : DueDateFilter

pub data ChecklistFilter : Type 0 where
  every with_checklist complete incomplete : ChecklistFilter

pub record FilterState : Type 0 where
  pub labels : List Text
  pub due_date : Option DueDateFilter
  pub checklist : ChecklistFilter

-- `column.cards ?? []`
abbrev pub cards_of : Column → List CardView
cards_of column = get_or (Column.cards column) []

-- `text.startsWith(part)`
unfoldable pub starts_with : Text → Text → Bool
starts_with text [] = true
starts_with [] (x ∷ xs) = false
starts_with (y ∷ ys) (x ∷ xs) = x == y && starts_with ys xs

-- `text.includes(part)`
unfoldable pub includes : Text → Text → Bool
includes [] part = is_empty part
includes (y ∷ ys) part = starts_with (y ∷ ys) part || includes ys part

-- `matchesTitle`
unfoldable pub matches_title : Engine → Text → Text → Bool
matches_title engine card_title query =
    let normalized_query = engine.to_lower_case (trim query) in
    if length normalized_query == 0
    then true
    else includes (engine.to_lower_case card_title) normalized_query

-- the body of both maps: the column itself where the test leaves all of its cards
unfoldable pub narrow : (CardView → Bool) → Column → Column
narrow p column =
    if length (select p (cards_of column)) == length (cards_of column)
    then column
    else record column { cards = some (select p (cards_of column)) }

unfoldable pub filter_columns_by_title : Engine → List Column → Text → List Column
filter_columns_by_title engine columns query =
    if ltb (length (trim query)) 2
    then columns
    else map (narrow (λ card. matches_title engine (CardView.title card) query)) columns

-- `matchesLabels`
unfoldable pub matches_labels : Option (List Text) → List Text → Bool
matches_labels card_labels selected_labels =
    all (λ label. any (λ name. text_eq label name) (get_or card_labels [])) selected_labels

-- a condition on a parsed date: an invalid date meets none, and neither does a text that is empty
unfoldable pub date_meets : Engine → Option Text → (ℤ → Bool) → Bool
date_meets engine none p = false
date_meets engine (some text) p =
    if is_empty text then false else elim (engine.parse text) [ none ↦ false | some t ↦ p t ]

-- `matchesDueDate`
unfoldable pub matches_due_date : Engine → Option Text → Option DueDateFilter → Bool
matches_due_date engine due_date none = true
matches_due_date engine due_date (some DueDateFilter.no_date) = not (is_some due_date)
matches_due_date engine due_date (some DueDateFilter.overdue) =
    date_meets engine due_date (λ t. ltb_ℤ t engine.today)
matches_due_date engine due_date (some DueDateFilter.today) =
    date_meets engine due_date engine.is_today
matches_due_date engine due_date (some DueDateFilter.this_week) =
    date_meets engine due_date (λ t. leb_ℤ engine.today t && ltb_ℤ t engine.window_end)

abbrev pub total_of : Option Progress → ℕ
total_of none = 0
total_of (some p) = p.total

abbrev pub completed_of : Option Progress → ℕ
completed_of none = 0
completed_of (some p) = p.completed

-- `matchesChecklist`
unfoldable pub matches_checklist : Option Progress → ChecklistFilter → Bool
matches_checklist progress ChecklistFilter.every = true
matches_checklist progress ChecklistFilter.with_checklist = ltb 0 (total_of progress)
matches_checklist progress ChecklistFilter.complete =
    ltb 0 (total_of progress) && completed_of progress == total_of progress
matches_checklist progress ChecklistFilter.incomplete =
    ltb 0 (total_of progress) && ltb (completed_of progress) (total_of progress)

-- the test of a card in `filterColumnsByFilters`
unfoldable pub matches_filters : Engine → FilterState → CardView → Bool
matches_filters engine filters card =
    if not (matches_labels card.labels filters.labels)
    then false
    else if not (matches_due_date engine card.due_date filters.due_date)
    then false
    else if not (matches_checklist card.checklist_progress filters.checklist)
    then false
    else true

abbrev pub is_every : ChecklistFilter → Bool
is_every ChecklistFilter.every = true
is_every ChecklistFilter.with_checklist = false
is_every ChecklistFilter.complete = false
is_every ChecklistFilter.incomplete = false

unfoldable pub filter_columns_by_filters : Engine → List Column → FilterState → List Column
filter_columns_by_filters engine columns filters =
    if ltb 0 (length filters.labels) || is_some filters.due_date || not (is_every filters.checklist)
    then map (narrow (matches_filters engine filters)) columns
    else columns
