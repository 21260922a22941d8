-- ===== src/Tests/FilterRuns.antt =====
-- The theorems on the search and the filters of a board, applied to two columns.
use kan_pad.Base.{
  ℕ, ◌≡◌, refl, true, ◌↔◌, false, List, [], ◌∷◌, Option, none, some, map, length, select, ltb, ◌==◌,
}
use kan_pad.Base.Int.{pos}
use kan_pad.Base.Text.{trim}
use kan_pad.Filters.{
  Engine, CardView, Column, FilterState, ChecklistFilter, cards_of, matches_filters,
  filter_columns_by_filters,
}
use kan_pad.Filters.Meets.{Meets}
use kan_pad.Filters.Selection.{cards_of-filter_columns_by_filters}
use kan_pad.Summary.{Progress}

abbrev browser : Engine
browser = record {
  to_lower_case = λ t. t;
  parse = λ t. none;
  today = pos 0;
  window_end = pos 7;
  is_today = λ t. false;
}

abbrev shown : ℕ → Option Progress → CardView
shown letter progress = record {
  title = letter ∷ 98 ∷ [];
  labels = none;
  due_date = none;
  checklist_progress = progress;
}

abbrev half : Progress
half = record { completed = 1; total = 2; percent = 50 }

abbrev full : Progress
full = record { completed = 2; total = 2; percent = 100 }

abbrev cards_shown : List CardView
cards_shown = shown 97 (some half) ∷ shown 98 (some full) ∷ shown 99 none ∷ []

abbrev columns_shown : List Column
columns_shown = record { id = 1; cards = some cards_shown } ∷ record { id = 2; cards = none } ∷ []

abbrev only_complete : FilterState
only_complete = record { labels = []; due_date = none; checklist = ChecklistFilter.complete }

long_query : ltb (length (trim (97 ∷ 98 ∷ []))) 2 ≡ false
unfolding trim
long_query = refl

not_empty : (length (browser.to_lower_case (trim (97 ∷ 98 ∷ []))) == 0) ≡ false
unfolding trim
not_empty = refl

cards_of-filter_columns_by_filters_example :
    (map cards_of (filter_columns_by_filters browser columns_shown only_complete)
      ≡ map (λ c. select (matches_filters browser only_complete) (cards_of c)) columns_shown)
    × ((card : CardView)
        → (matches_filters browser only_complete card ≡ true) ↔ Meets browser only_complete card)
cards_of-filter_columns_by_filters_example =
    cards_of-filter_columns_by_filters browser columns_shown only_complete
