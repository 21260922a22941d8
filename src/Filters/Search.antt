-- ===== src/Filters/Search.antt =====
-- What a search by title finds, and how the filters on checklists divide the cards.
use kan_pad.Base.{
  ◌+◌, ◌≤◌, ap, ap₂, ◌≡◌, refl, inl, inr, ◌↔◌, Bool, true, false, List, [], ◌∷◌, ◌++◌, length,
  select, ◌==◌, ==_refl, arith, Bool-cases, Member,
}
use kan_pad.Base.Text.{Text, trim}
use kan_pad.Filters.{
  Engine, CardView, ChecklistFilter, starts_with, includes, matches_title, matches_checklist,
  total_of, completed_of,
}

starts_with_sound :
    (text part : Text) → starts_with text part ≡ true → (rest : Text) × (text ≡ part ++ rest)
unfolding starts_with
starts_with_sound text [] h = (text, refl)
starts_with_sound [] (x ∷ xs) h = absurd (ground arith)
starts_with_sound (y ∷ ys) (x ∷ xs) h =
    let (rest, e) = starts_with_sound ys xs (ground arith) in
    let same : y ≡ x = ground arith in (rest, ap₂ ◌∷◌ same e)

starts_with_complete : (part rest : Text) → starts_with (part ++ rest) part ≡ true
unfolding starts_with
starts_with_complete [] rest = refl
starts_with_complete (x ∷ xs) rest = ground (arith, starts_with_complete xs rest, ==_refl x)

includes_sound :
    (text part : Text)
    → includes text part ≡ true
    → (front rest : Text) × (text ≡ front ++ (part ++ rest))
unfolding includes
includes_sound [] [] h = ([], [], refl)
includes_sound [] (x ∷ xs) h = absurd (ground arith)
includes_sound (y ∷ ys) part h = elim (Bool-cases (starts_with (y ∷ ys) part)) [
  | inl e ↦ let (rest, q) = starts_with_sound (y ∷ ys) part e in ([], rest, q)
  | inr e ↦
      let (front, rest, q) = includes_sound ys part (ground arith) in
      (y ∷ front, rest, ap (◌∷◌ y) q)
]

includes_complete : (front part rest : Text) → includes (front ++ (part ++ rest)) part ≡ true
unfolding includes starts_with
includes_complete [] [] [] = refl
includes_complete [] [] (r ∷ rs) = refl
includes_complete [] (x ∷ xs) rest = ground (arith, starts_with_complete xs rest, ==_refl x)
includes_complete (f ∷ fs) part rest = ground (arith, includes_complete fs part rest)

-- With a query that is not empty once it is trimmed and in lower case, `matchesTitle` admits exactly
-- the titles that contain it, in lower case.
pub matches_title_iff :
    (engine : Engine) (card_title query : Text)
    → (length (engine.to_lower_case (trim query)) == 0) ≡ false
    → (matches_title engine card_title query ≡ true) ↔ (
        (front rest : Text) × (engine.to_lower_case card_title
          ≡ front ++ (engine.to_lower_case (trim query) ++ rest)))
unfolding matches_title
matches_title_iff engine card_title query h = (
  λ m.
      includes_sound (engine.to_lower_case card_title) (engine.to_lower_case (trim query))
        (rw h at m),
  λ (front, rest, e). rw (h, e) (includes_complete front (engine.to_lower_case (trim query)) rest),
)

abbrev pub admits : ChecklistFilter → CardView → Bool
admits filter card = matches_checklist (CardView.checklist_progress card) filter

-- Where no card has more completed items than items, each card that the filter With Checklist admits
-- is admitted by exactly one of the filters Complete and Incomplete, and they admit no other.
pub length-checklist_filters :
    (cards : List CardView)
    → ((c : CardView)
        → Member c cards
        → completed_of c.checklist_progress ≤ total_of c.checklist_progress)
    → length (select (admits ChecklistFilter.complete) cards)
        + length (select (admits ChecklistFilter.incomplete) cards)
      ≡ length (select (admits ChecklistFilter.with_checklist) cards)
unfolding matches_checklist
length-checklist_filters [] h = omega arith
length-checklist_filters (c ∷ cs) h =
    ground (arith, h c (inl refl), length-checklist_filters cs (λ d m. h d (inr m)))
