-- ===== src/Frontend/ListSort/Order.antt =====
-- The orders of the list view, said without the comparison of board-list-sort.ts.
use kan_pad.Base.{
  ◌≡◌, refl, inl, inr, false, Option, none, some, get_or, arith, ◌↔◌, Option-cases, Bool-cases,
}
use kan_pad.Base.Int.{ℤ, pos, ◌≤ℤ◌, ◌-ℤ◌, ◌*ℤ◌, int_laws}
use kan_pad.Base.Text.{Text, is_empty}
use kan_pad.Frontend.ListSort.{
  BoardListSortKey, by_created_at, by_updated_at, by_due_date, by_title, SortDir, ascending,
  descending, FlatCard, Locale, mul_of, due_date_of, time_of, compare_due, compare_cards,
}

-- a difference that the direction has turned
abbrev pub Turned : SortDir → ℤ → Type 0
Turned ascending d = d ≤ℤ pos 0
Turned descending d = pos 0 ≤ℤ d

pub times-Turned : (dir : SortDir) (d : ℤ) → (d *ℤ mul_of dir ≤ℤ pos 0) ↔ Turned dir d
unfolding ◌*ℤ◌
times-Turned ascending d = (λ h. ground arith, λ h. ground arith)
times-Turned descending d = (λ h. ground arith, λ h. ground arith)

module _ (h : Locale) where
  -- the time of a text, where an invalid date counts as the start of 1970
  abbrev moment : Text → ℤ
  moment v = get_or (h.get_time v) (pos 0)

  -- the first time is not later, going up, and not earlier, going down
  abbrev NotPast : SortDir → Text → Text → Type 0
  NotPast ascending v w = moment v ≤ℤ moment w
  NotPast descending v w = moment w ≤ℤ moment v

  -- What the list view promises of a card `a` before a card `b`. By due date, `a` has a date that is
  -- in the direction with that of `b`, unless `b` has none.
  abbrev pub InOrder : BoardListSortKey → SortDir → FlatCard → FlatCard → Type 0
  InOrder by_title ascending a b = h.locale_compare a.title b.title ≤ℤ pos 0
  InOrder by_title descending a b = pos 0 ≤ℤ h.locale_compare a.title b.title
  InOrder by_created_at dir a b = NotPast dir a.created_at b.created_at
  InOrder by_updated_at dir a b = NotPast dir a.updated_at b.updated_at
  InOrder by_due_date dir a b =
      (w : Text)
      → b.due_date ≡ some w
      → is_empty w ≡ false
      → (v : Text) × (a.due_date ≡ some v) × (is_empty v ≡ false) × NotPast dir v w

  times-NotPast :
      (dir : SortDir) (v w : Text)
      → (time_of h v -ℤ time_of h w) *ℤ mul_of dir ≤ℤ pos 0
      → NotPast dir v w
  unfolding time_of
  times-NotPast ascending v w e =
      omega (int_laws, (times-Turned ascending (time_of h v -ℤ time_of h w)).0 e)
  times-NotPast descending v w e =
      omega (int_laws, (times-Turned descending (time_of h v -ℤ time_of h w)).0 e)

  due_dated :
      (dir : SortDir) (x : Option Text) (w : Text)
      → compare_due h dir x (some w) ≤ℤ pos 0
      → (v : Text) × (x ≡ some v) × NotPast dir v w
  due_dated dir none w e = absurd (omega arith)
  due_dated dir (some v) w e = (v, refl, times-NotPast dir v w e)

  dated :
      (c : FlatCard) (v : Text)
      → due_date_of c ≡ some v
      → (c.due_date ≡ some v) × (is_empty v ≡ false)
  unfolding due_date_of
  dated c v e = elim (Option-cases (FlatCard.due_date c)) [
    | inl n ↦ absurd (ground (arith, n))
    | inr (x, n) ↦ elim (Bool-cases (is_empty x)) [
      | inl p ↦ absurd (ground (arith, n, p))
      | inr p ↦ let same : x ≡ v = ground (arith, n, p) in (ground (arith, n, same), rw (← same) p)
    ]
  ]

  has_date :
      (c : FlatCard) (v : Text) → c.due_date ≡ some v → is_empty v ≡ false → due_date_of c ≡ some v
  unfolding due_date_of
  has_date c v e p = rw (due_date_of, e, p) refl

  -- A comparison that is not positive puts the cards in the order.
  pub compare-InOrder :
      (key : BoardListSortKey) (dir : SortDir) (a b : FlatCard)
      → compare_cards h key dir a b ≤ℤ pos 0
      → InOrder key dir a b
  unfolding compare_cards
  compare-InOrder by_title ascending a b e = (times-Turned ascending _).0 e
  compare-InOrder by_title descending a b e = (times-Turned descending _).0 e
  compare-InOrder by_created_at dir a b e = times-NotPast dir a.created_at b.created_at e
  compare-InOrder by_updated_at dir a b e = times-NotPast dir a.updated_at b.updated_at e
  compare-InOrder by_due_date dir a b e = λ w there full.
      let below : compare_due h dir (due_date_of a) (some w) ≤ℤ pos 0 =
        rw (has_date b w there full) at e in
      let (v, x, past) = due_dated dir (due_date_of a) w below in
      let (d, f) = dated a v x in (v, d, f, past)
