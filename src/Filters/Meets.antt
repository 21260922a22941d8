-- ===== src/Filters/Meets.antt =====
-- When a card meets the filters of a board, said of its labels, its date and its progress.
use kan_pad.Base.{
  ◌<◌, ◌≡◌, refl, inl, inr, ◌↔◌, Bool, true, false, List, [], ◌∷◌, Option, none, some, Member, any,
  get_or, arith, Bool-cases, Option-cases,
}
use kan_pad.Base.Int.{ℤ, ◌≤ℤ◌, ◌<ℤ◌}
use kan_pad.Base.Text.{Text, text_eq, text_eq_iff, is_empty}
use kan_pad.Filters.{
  Engine, CardView, FilterState, ChecklistFilter, DueDateFilter, matches_labels, date_meets,
  matches_due_date, matches_checklist, matches_filters,
}
use kan_pad.Summary.{Progress}

-- each selected label is one of the card
abbrev HasLabels : List Text → List Text → Type 0
HasLabels [] names = Unit
HasLabels (label ∷ labels) names = Member label names × HasLabels labels names

-- a progress with at least one item that meets a condition
abbrev HasItems : (Progress → Type 0) → Option Progress → Type 0
HasItems P progress = (p : Progress) × (progress ≡ some p) × (0 < p.total) × P p

abbrev MeetsChecklist : ChecklistFilter → Option Progress → Type 0
MeetsChecklist ChecklistFilter.every progress = Unit
MeetsChecklist ChecklistFilter.with_checklist progress = HasItems (λ p. Unit) progress
MeetsChecklist ChecklistFilter.complete progress = HasItems (λ p. p.completed ≡ p.total) progress
MeetsChecklist ChecklistFilter.incomplete progress = HasItems (λ p. p.completed < p.total) progress

labels_iff :
    (names labels : List Text)
    → (matches_labels (some names) labels ≡ true) ↔ HasLabels labels names
unfolding matches_labels
labels_iff names [] = (λ h. tt, λ h. refl)
labels_iff names (label ∷ labels) =
    let found = any_name names in
    (
      λ h. (found.0 (ground arith), (labels_iff names labels).0 (ground arith)),
      λ (m, ms).
          let a = found.1 m in let b = (labels_iff names labels).1 ms in ground (arith, a, b),
    )
  where
    any_name : (ns : List Text) → (any (λ name. text_eq label name) ns ≡ true) ↔ Member label ns
    any_name [] = (λ h. absurd (ground arith), λ m. absurd m)
    any_name (n ∷ ns) = (
      λ h. elim (Bool-cases (text_eq label n)) [
        | inl e ↦ inl ((text_eq_iff label n).0 e)
        | inr e ↦ inr ((any_name ns).0 (ground (arith, e)))
      ],
      λ m. elim m [
        | inl e ↦ let same = (text_eq_iff label n).1 e in ground (arith, same)
        | inr k ↦ let there = (any_name ns).1 k in ground (arith, there)
      ],
    )

checklist_iff :
    (progress : Option Progress) (filter : ChecklistFilter)
    → (matches_checklist progress filter ≡ true) ↔ MeetsChecklist filter progress
unfolding matches_checklist
checklist_iff progress ChecklistFilter.every = (λ h. tt, λ h. refl)
checklist_iff none ChecklistFilter.with_checklist =
    (λ h. absurd (ground arith), λ (p, e, m, u). absurd (ground (arith, e)))
checklist_iff none ChecklistFilter.complete =
    (λ h. absurd (ground arith), λ (p, e, m, u). absurd (ground (arith, e)))
checklist_iff none ChecklistFilter.incomplete =
    (λ h. absurd (ground arith), λ (p, e, m, u). absurd (ground (arith, e)))
checklist_iff (some q) ChecklistFilter.with_checklist = (
  λ h. (q, refl, ground arith, tt),
  λ (p, e, m, u). let same : q ≡ p = ground (arith, e) in rw same (ground (arith, m)),
)
checklist_iff (some q) ChecklistFilter.complete = (
  λ h. (q, refl, ground arith, ground arith),
  λ (p, e, m, u). let same : q ≡ p = ground (arith, e) in rw same (ground (arith, m, u)),
)
checklist_iff (some q) ChecklistFilter.incomplete = (
  λ h. (q, refl, ground arith, ground arith),
  λ (p, e, m, u). let same : q ≡ p = ground (arith, e) in rw same (ground (arith, m, u)),
)

module _ (engine : Engine) where
  -- a date that can be read, and whose time meets a condition
  abbrev HasDate : (ℤ → Type 0) → Option Text → Type 0
  HasDate P due_date =
      (text : Text) × (due_date ≡ some text)
      × (is_empty text ≡ false)
      × (t : ℤ) × (engine.parse text ≡ some t)
      × P t

  abbrev MeetsDue : Option DueDateFilter → Option Text → Type 0
  MeetsDue none due_date = Unit
  MeetsDue (some DueDateFilter.no_date) due_date = due_date ≡ none
  MeetsDue (some DueDateFilter.overdue) due_date = HasDate (λ t. t <ℤ engine.today) due_date
  MeetsDue (some DueDateFilter.today) due_date = HasDate (λ t. engine.is_today t ≡ true) due_date
  MeetsDue (some DueDateFilter.this_week) due_date =
      HasDate (λ t. (engine.today ≤ℤ t) × (t <ℤ engine.window_end)) due_date

  -- A card meets the filters: it has each selected label, its due date is as the filter on dates
  -- says, and its checklists are as the filter on checklists says.
  abbrev pub Meets : FilterState → CardView → Type 0
  Meets filters card =
      HasLabels filters.labels (get_or card.labels [])
      × MeetsDue filters.due_date card.due_date
      × MeetsChecklist filters.checklist card.checklist_progress

  date_iff :
      (p : ℤ → Bool) (P : ℤ → Type 0) (due_date : Option Text)
      → ((t : ℤ) → (p t ≡ true) ↔ P t)
      → (date_meets engine due_date p ≡ true) ↔ HasDate P due_date
  unfolding date_meets
  date_iff p P none same =
      (λ h. absurd (ground arith), λ (text, e, f, t, r, m). absurd (ground (arith, e)))
  date_iff p P (some text) same = (
    λ h. elim (Bool-cases (is_empty text)) [
      | inl f ↦ absurd (ground (arith, f))
      | inr f ↦ elim (Option-cases (engine.parse text)) [
        | inl n ↦ absurd (ground (arith, f, n))
        | inr (t, e) ↦ (text, refl, f, t, e, (same t).0 (ground (arith, f, e)))
      ]
    ],
    λ (other, e, full, t, r, m).
        let one : text ≡ other = ground (arith, e) in
        let holds = (same t).1 m in rw one (ground (arith, full, r, holds)),
  )

  due_iff :
      (due_date : Option Text) (filter : Option DueDateFilter)
      → (matches_due_date engine due_date filter ≡ true) ↔ MeetsDue filter due_date
  unfolding matches_due_date
  due_iff due_date none = (λ h. tt, λ h. refl)
  due_iff none (some DueDateFilter.no_date) = (λ h. refl, λ h. refl)
  due_iff (some x) (some DueDateFilter.no_date) =
      (λ h. absurd (ground arith), λ h. absurd (ground arith))
  due_iff due_date (some DueDateFilter.overdue) =
      date_iff _ _ due_date (λ t. (λ h. ground arith, λ h. ground arith))
  due_iff due_date (some DueDateFilter.today) = date_iff _ _ due_date (λ t. (λ h. h, λ h. h))
  due_iff due_date (some DueDateFilter.this_week) =
      date_iff _ _ due_date (λ t. (λ h. (ground arith, ground arith), λ (a, b). ground arith))

  pub matches_filters_iff :
      (filters : FilterState) (card : CardView)
      → (matches_filters engine filters card ≡ true) ↔ Meets filters card
  unfolding matches_filters matches_labels
  matches_filters_iff filters card =
      let l = selected_labels card.labels filters.labels in
      let d = due_iff card.due_date filters.due_date in
      let c = checklist_iff card.checklist_progress filters.checklist in
      (
        λ h. (l.0 (ground arith), d.0 (ground arith), c.0 (ground arith)),
        λ (a, b, e). let x = l.1 a in let y = d.1 b in let z = c.1 e in ground (arith, x, y, z),
      )
    where
      selected_labels :
          (names : Option (List Text)) (labels : List Text)
          → (matches_labels names labels ≡ true) ↔ HasLabels labels (get_or names [])
      selected_labels (some names) labels = labels_iff names labels
      selected_labels none labels = labels_iff [] labels
