-- ===== src/Filters/Selection.antt =====
-- What the search and the filters leave of a column.
use kan_pad.Base.{
  ◌≤◌, ◌↔◌, ap, ◌∙◌, sym, ◌≡◌, refl, inl, inr, Bool, true, false, not, ◌||◌, List, [], ◌∷◌, map,
  map-map, map-cong, Option, none, some, length, select, ltb, ◌==◌, ==_iff, is_some, arith,
  Bool-cases, Option-cases,
}
use kan_pad.Base.Text.{Text, trim}
use kan_pad.Filters.Meets.{Meets, matches_filters_iff}
use kan_pad.Filters.{
  Engine, CardView, Column, FilterState, ChecklistFilter, DueDateFilter, cards_of, matches_title,
  narrow, filter_columns_by_title, matches_labels, matches_due_date, matches_checklist,
  matches_filters, filter_columns_by_filters, is_every,
}

length-select-le : (p : CardView → Bool) (cs : List CardView) → length (select p cs) ≤ length cs
length-select-le p [] = omega arith
length-select-le p (c ∷ cs) = ground (arith, length-select-le p cs)

-- a selection as long as the list is the list
select_full :
    (p : CardView → Bool) (cs : List CardView) → length (select p cs) ≡ length cs → select p cs ≡ cs
select_full p [] h = refl
select_full p (c ∷ cs) h = elim (Bool-cases (p c)) [
  | inl e ↦ ground (arith, select_full p cs)
  | inr e ↦ let le = length-select-le p cs in absurd (ground (arith, e))
]

cards_of-narrow : (p : CardView → Bool) (c : Column) → cards_of (narrow p c) ≡ select p (cards_of c)
unfolding narrow
cards_of-narrow p c = elim (Bool-cases (length (select p (cards_of c)) == length (cards_of c))) [
  | inl h ↦ rw h (sym (select_full p (cards_of c) ((==_iff _ _).0 h)))
  | inr h ↦ rw h refl
]

cards_of-narrow_all :
    (p : CardView → Bool) (cs : List Column)
    → map cards_of (map (narrow p) cs) ≡ map (λ c. select p (cards_of c)) cs
cards_of-narrow_all p cs =
    map-map (narrow p) cards_of cs ∙ map-cong _ _ cs (λ c m. cards_of-narrow p c)

select_every :
    (p : CardView → Bool) (cs : List CardView) → ((c : CardView) → p c ≡ true) → select p cs ≡ cs
select_every p [] h = refl
select_every p (c ∷ cs) h = ground (arith, h c, select_every p cs h)

select_commute :
    (p q : CardView → Bool) (cs : List CardView) → select p (select q cs) ≡ select q (select p cs)
select_commute p q [] = refl
select_commute p q (c ∷ cs) = ground (arith, select_commute p q cs)

module _ (engine : Engine) where
  default_case :
      (labels : List Text) (checklist : ChecklistFilter) (due_date : Option DueDateFilter)
      (c : CardView)
      → due_date ≡ none
      → (ltb 0 (length labels) || is_some due_date || not (is_every checklist)) ≡ false
      → matches_filters engine
          (record { labels = labels; due_date = due_date; checklist = checklist })
          c
        ≡ true
  unfolding matches_filters matches_labels matches_due_date matches_checklist
  default_case [] ChecklistFilter.every none c e h = refl
  default_case (l ∷ ls) ChecklistFilter.every none c e h = absurd (ground arith)
  default_case labels ChecklistFilter.every (some d) c e h = absurd (ground arith)
  default_case labels ChecklistFilter.with_checklist due_date c e h = absurd (ground arith)
  default_case labels ChecklistFilter.complete due_date c e h = absurd (ground arith)
  default_case labels ChecklistFilter.incomplete due_date c e h = absurd (ground arith)

  default_matches :
      (filters : FilterState)
      → (ltb 0 (length filters.labels)
          || is_some filters.due_date
          || not (is_every filters.checklist))
        ≡ false
      → (c : CardView) → matches_filters engine filters c ≡ true
  unfolding matches_filters matches_labels matches_due_date matches_checklist
  default_matches filters h c = elim (Option-cases filters.due_date) [
    | inr (d, e) ↦ absurd (ground (arith, e))
    | inl e ↦ default_case filters.labels filters.checklist filters.due_date c e h
  ]

  kept_cards :
      (columns : List Column) (filters : FilterState)
      → map cards_of (filter_columns_by_filters engine columns filters)
        ≡ map (λ c. select (matches_filters engine filters) (cards_of c)) columns
  unfolding filter_columns_by_filters
  kept_cards columns filters =
      elim (Bool-cases (
        ltb 0 (length filters.labels)
        || is_some filters.due_date
        || not (is_every filters.checklist))) [
          | inl h ↦ rw h (cards_of-narrow_all (matches_filters engine filters) columns)
          | inr h ↦ rw h (
              map-cong _ _ columns (λ c m. sym (
                select_every (matches_filters engine filters) (cards_of c)
                  (default_matches filters h))))
        ]

  -- The filters of a board leave of every column the cards that pass their test, in their order,
  -- whether or not a filter is set. A card passes it exactly if it has every selected label, has no
  -- due date or one that can be read, as the filter on dates says, whose time is before today, on
  -- today, or in the seven days from it, and has at least one item, with all, or not all, completed,
  -- as the filter on checklists says; a filter that is not set asks for nothing.
  pub cards_of-filter_columns_by_filters :
      (columns : List Column) (filters : FilterState)
      → (map cards_of (filter_columns_by_filters engine columns filters)
          ≡ map (λ c. select (matches_filters engine filters) (cards_of c)) columns)
        × ((card : CardView)
            → (matches_filters engine filters card ≡ true) ↔ Meets engine filters card)
  cards_of-filter_columns_by_filters columns filters =
      (kept_cards columns filters, matches_filters_iff engine filters)

  -- Searching by a title of two characters or more and filtering can be done in either order.
  pub filters_and_title :
      (columns : List Column) (filters : FilterState) (query : Text)
      → ltb (length (trim query)) 2 ≡ false
      → map cards_of
          (filter_columns_by_title engine (filter_columns_by_filters engine columns filters) query)
        ≡ map cards_of (
            filter_columns_by_filters engine (filter_columns_by_title engine columns query) filters)
  unfolding filter_columns_by_title
  filters_and_title columns filters query h =
      let p = matches_filters engine filters in
      let q : CardView → Bool = λ card. matches_title engine (CardView.title card) query in
      let filtered = filter_columns_by_filters engine columns filters in
      let searched = map (narrow q) columns in
      let first : filter_columns_by_title engine columns query ≡ searched = rw h refl in
      let second : filter_columns_by_title engine filtered query ≡ map (narrow q) filtered =
        rw h refl in
      ap (map cards_of) second
      ∙ cards_of-narrow_all q filtered
      ∙ sym (map-map cards_of (select q) filtered)
      ∙ ap (map (select q)) (kept_cards columns filters)
      ∙ map-map (λ c. select p (cards_of c)) (select q) columns
      ∙ map-cong _ _ columns (λ c m. select_commute q p (cards_of c))
      ∙ sym (map-map (λ c. select q (cards_of c)) (select p) columns)
      ∙ sym (ap (map (select p)) (cards_of-narrow_all q columns))
      ∙ map-map cards_of (select p) searched
      ∙ sym (kept_cards searched filters)
      ∙ sym (ap (λ cs. map cards_of (filter_columns_by_filters engine cs filters)) first)
