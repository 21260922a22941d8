-- ===== src/Frontend/ListSort/Sorted.antt =====
-- The comparison of two cards is a total preorder, and the list is sorted by it.
use mathlib.Core.List.{Permᴰ}
use mathlib.Core.List.Permᴰ
use kan_pad.Base.{
  ◌≡◌, refl, inl, inr, List, [], ◌∷◌, Option, none, some, arith, All, Bool-cases, ◌⊎◌,
}
use kan_pad.Base.Int.{ℤ, pos, ◌≤ℤ◌, ◌-ℤ◌, ◌*ℤ◌, leb_ℤ, int_laws}
use kan_pad.Base.Text.{Text}
use kan_pad.Frontend.ListSort.Order.{Turned, times-Turned, InOrder, compare-InOrder}
use kan_pad.Frontend.ListSort.{
  BoardListSortKey, by_created_at, by_updated_at, by_due_date, by_title, SortDir, ascending,
  descending, FlatCard, Locale, mul_of, due_date_of, time_of, compare_due, compare_cards,
  insert_stable, sort_stable, sort_flat_cards,
}

-- `localeCompare` compares by a total preorder of the strings.
pub record IsLocale (h : Locale) : Type 0 where
  pub total : (a b : Text) → (h.locale_compare a b ≤ℤ pos 0) ⊎ (h.locale_compare b a ≤ℤ pos 0)
  pub flipped : (a b : Text) → h.locale_compare a b ≤ℤ pos 0 → pos 0 ≤ℤ h.locale_compare b a
  pub flipped_back : (a b : Text) → pos 0 ≤ℤ h.locale_compare a b → h.locale_compare b a ≤ℤ pos 0
  pub transitive :
      (a b c : Text)
      → h.locale_compare a b ≤ℤ pos 0
      → h.locale_compare b c ≤ℤ pos 0
      → h.locale_compare a c ≤ℤ pos 0

-- each card stands in the order before all those behind it
abbrev pub IsListed : (FlatCard → FlatCard → Type 0) → List FlatCard → Type 0
IsListed Before [] = Unit
IsListed Before (x ∷ xs) = All (Before x) xs × IsListed Before xs

-- every element comes before those behind it
abbrev IsSortedBy : (FlatCard → FlatCard → ℤ) → List FlatCard → Type 0
IsSortedBy compare [] = Unit
IsSortedBy compare (x ∷ xs) = All (λ y. compare x y ≤ℤ pos 0) xs × IsSortedBy compare xs

module _ (compare : FlatCard → FlatCard → ℤ)
    (total : (a b : FlatCard) → (compare a b ≤ℤ pos 0) ⊎ (compare b a ≤ℤ pos 0))
    (transitive : (a b c : FlatCard)
      → compare a b ≤ℤ pos 0
      → compare b c ≤ℤ pos 0
      → compare a c ≤ℤ pos 0) where
  All-below :
      (x y : FlatCard) (xs : List FlatCard)
      → compare x y ≤ℤ pos 0
      → All (λ z. compare y z ≤ℤ pos 0) xs
      → All (λ z. compare x z ≤ℤ pos 0) xs
  All-below x y [] h a = tt
  All-below x y (z ∷ zs) h a = (transitive x y z h a.0, All-below x y zs h a.1)

  All-insert :
      (x y : FlatCard) (xs : List FlatCard)
      → compare y x ≤ℤ pos 0
      → All (λ z. compare y z ≤ℤ pos 0) xs
      → All (λ z. compare y z ≤ℤ pos 0) (insert_stable compare x xs)
  unfolding insert_stable
  All-insert x y [] h a = (h, tt)
  All-insert x y (z ∷ zs) h a = ground (arith, All-insert x y zs h a.1)

  insert-IsSortedBy :
      (x : FlatCard) (xs : List FlatCard)
      → IsSortedBy compare xs
      → IsSortedBy compare (insert_stable compare x xs)
  unfolding insert_stable
  insert-IsSortedBy x [] s = (tt, tt)
  insert-IsSortedBy x (y ∷ ys) s = elim (Bool-cases (leb_ℤ (compare x y) (pos 0))) [
    | inl h ↦
        let le : compare x y ≤ℤ pos 0 = ground arith in rw h ((le, All-below x y ys le s.0), s)
    | inr h ↦
        let ge : compare y x ≤ℤ pos 0 = elim (total x y) [
          | inl k ↦ absurd (ground arith)
          | inr k ↦ k
        ] in
        rw h (All-insert x y ys ge s.0, insert-IsSortedBy x ys s.1)
  ]

  sort-IsSortedBy : (xs : List FlatCard) → IsSortedBy compare (sort_stable compare xs)
  unfolding sort_stable
  sort-IsSortedBy [] = tt
  sort-IsSortedBy (x ∷ xs) = insert-IsSortedBy x (sort_stable compare xs) (sort-IsSortedBy xs)

  insert-Permᴰ : (x : FlatCard) (xs : List FlatCard) → Permᴰ (insert_stable compare x xs) (x ∷ xs)
  unfolding insert_stable
  insert-Permᴰ x [] = Permᴰ.cons refl Permᴰ.nil
  insert-Permᴰ x (y ∷ ys) = elim (Bool-cases (leb_ℤ (compare x y) (pos 0))) [
    | inl h ↦ rw h (Permᴰ.refl (x ∷ y ∷ ys))
    | inr h ↦ rw h (Permᴰ.trans (Permᴰ.cons refl (insert-Permᴰ x ys)) (Permᴰ.swap refl refl))
  ]

  sort-Permᴰ : (xs : List FlatCard) → Permᴰ (sort_stable compare xs) xs
  unfolding sort_stable
  sort-Permᴰ [] = Permᴰ.nil
  sort-Permᴰ (x ∷ xs) =
      Permᴰ.trans (insert-Permᴰ x (sort_stable compare xs)) (Permᴰ.cons refl (sort-Permᴰ xs))

time_total : (dir : SortDir) (a b : ℤ) → Turned dir (a -ℤ b) ⊎ Turned dir (b -ℤ a)
unfolding ◌-ℤ◌
time_total ascending a b = ground arith
time_total descending a b = ground arith

time_transitive :
    (dir : SortDir) (a b c : ℤ) → Turned dir (a -ℤ b) → Turned dir (b -ℤ c) → Turned dir (a -ℤ c)
time_transitive ascending a b c h k = omega (int_laws, h, k)
time_transitive descending a b c h k = omega (int_laws, h, k)

either : {A B C D : Type 0} → (A → C) → (B → D) → A ⊎ B → C ⊎ D
either f g (inl a) = inl (f a)
either f g (inr b) = inr (g b)

-- a card without a due date is never before one with a due date
abbrev pub IsDueFirst : List FlatCard → Type 0
IsDueFirst [] = Unit
IsDueFirst (c ∷ cs) = All (λ d. due_date_of c ≡ none → due_date_of d ≡ none) cs × IsDueFirst cs

module _ (h : Locale) (is_locale : IsLocale h) where
  -- the comparison of two times, in a direction
  abbrev times : SortDir → ℤ → ℤ → ℤ
  times dir a b = (a -ℤ b) *ℤ mul_of dir

  times_total : (dir : SortDir) (a b : ℤ) → (times dir a b ≤ℤ pos 0) ⊎ (times dir b a ≤ℤ pos 0)
  times_total dir a b =
      either (times-Turned dir (a -ℤ b)).1 (times-Turned dir (b -ℤ a)).1 (time_total dir a b)

  times_transitive :
      (dir : SortDir) (a b c : ℤ)
      → times dir a b ≤ℤ pos 0
      → times dir b c ≤ℤ pos 0
      → times dir a c ≤ℤ pos 0
  times_transitive dir a b c e f =
      (times-Turned dir (a -ℤ c)).1
        (time_transitive dir a b c ((times-Turned dir _).0 e) ((times-Turned dir _).0 f))

  title_total :
      (dir : SortDir) (a b : Text)
      → Turned dir (h.locale_compare a b) ⊎ Turned dir (h.locale_compare b a)
  title_total ascending a b = is_locale.total a b
  title_total descending a b =
      either (is_locale.flipped b a) (is_locale.flipped a b) (is_locale.total b a)

  title_transitive :
      (dir : SortDir) (a b c : Text)
      → Turned dir (h.locale_compare a b)
      → Turned dir (h.locale_compare b c)
      → Turned dir (h.locale_compare a c)
  title_transitive ascending a b c e f = is_locale.transitive a b c e f
  title_transitive descending a b c e f =
      is_locale.flipped c a
        (is_locale.transitive c b a (is_locale.flipped_back b c f) (is_locale.flipped_back a b e))

  due_total :
      (dir : SortDir) (a b : Option Text)
      → (compare_due h dir a b ≤ℤ pos 0) ⊎ (compare_due h dir b a ≤ℤ pos 0)
  due_total dir none none = inl (omega arith)
  due_total dir none (some b) = inr (omega arith)
  due_total dir (some a) none = inl (omega arith)
  due_total dir (some a) (some b) = times_total dir (time_of h a) (time_of h b)

  due_transitive :
      (dir : SortDir) (a b c : Option Text)
      → compare_due h dir a b ≤ℤ pos 0
      → compare_due h dir b c ≤ℤ pos 0
      → compare_due h dir a c ≤ℤ pos 0
  due_transitive dir none none c e f = f
  due_transitive dir none (some b) c e f = absurd (omega arith)
  due_transitive dir (some a) none none e f = e
  due_transitive dir (some a) none (some c) e f = absurd (omega arith)
  due_transitive dir (some a) (some b) none e f = omega arith
  due_transitive dir (some a) (some b) (some c) e f =
      times_transitive dir (time_of h a) (time_of h b) (time_of h c) e f

  compare-total :
      (key : BoardListSortKey) (dir : SortDir) (a b : FlatCard)
      → (compare_cards h key dir a b ≤ℤ pos 0) ⊎ (compare_cards h key dir b a ≤ℤ pos 0)
  unfolding compare_cards
  compare-total by_title dir a b =
      either (times-Turned dir _).1 (times-Turned dir _).1 (title_total dir a.title b.title)
  compare-total by_due_date dir a b = due_total dir (due_date_of a) (due_date_of b)
  compare-total by_created_at dir a b =
      times_total dir (time_of h a.created_at) (time_of h b.created_at)
  compare-total by_updated_at dir a b =
      times_total dir (time_of h a.updated_at) (time_of h b.updated_at)

  compare-transitive :
      (key : BoardListSortKey) (dir : SortDir) (a b c : FlatCard)
      → compare_cards h key dir a b ≤ℤ pos 0
      → compare_cards h key dir b c ≤ℤ pos 0
      → compare_cards h key dir a c ≤ℤ pos 0
  unfolding compare_cards
  compare-transitive by_title dir a b c e f = (times-Turned dir _).1 (
      title_transitive dir a.title b.title c.title ((times-Turned dir _).0 e)
        ((times-Turned dir _).0 f))
  compare-transitive by_due_date dir a b c e f =
      due_transitive dir (due_date_of a) (due_date_of b) (due_date_of c) e f
  compare-transitive by_created_at dir a b c e f =
      times_transitive dir (time_of h a.created_at) (time_of h b.created_at)
        (time_of h c.created_at) e f
  compare-transitive by_updated_at dir a b c e f =
      times_transitive dir (time_of h a.updated_at) (time_of h b.updated_at)
        (time_of h c.updated_at) e f

  undated_last :
      (dir : SortDir) (c : FlatCard) (cs : List FlatCard)
      → All (λ d. compare_cards h by_due_date dir c d ≤ℤ pos 0) cs
      → All (λ d. due_date_of c ≡ none → due_date_of d ≡ none) cs
  unfolding compare_cards
  undated_last dir c [] a = tt
  undated_last dir c (d ∷ ds) a = (λ e. ground (arith, a.0, e), undated_last dir c ds a.1)

  sorted-IsDueFirst :
      (dir : SortDir) (cs : List FlatCard)
      → IsSortedBy (compare_cards h by_due_date dir) cs
      → IsDueFirst cs
  sorted-IsDueFirst dir [] s = tt
  sorted-IsDueFirst dir (c ∷ cs) s = (undated_last dir c cs s.0, sorted-IsDueFirst dir cs s.1)

  below-InOrder :
      (key : BoardListSortKey) (dir : SortDir) (c : FlatCard) (cs : List FlatCard)
      → All (λ d. compare_cards h key dir c d ≤ℤ pos 0) cs
      → All (InOrder h key dir c) cs
  below-InOrder key dir c [] a = tt
  below-InOrder key dir c (d ∷ ds) a =
      (compare-InOrder h key dir c d a.0, below-InOrder key dir c ds a.1)

  sorted-IsListed :
      (key : BoardListSortKey) (dir : SortDir) (cs : List FlatCard)
      → IsSortedBy (compare_cards h key dir) cs
      → IsListed (InOrder h key dir) cs
  sorted-IsListed key dir [] s = tt
  sorted-IsListed key dir (c ∷ cs) s =
      (below-InOrder key dir c cs s.0, sorted-IsListed key dir cs s.1)

  -- With a `localeCompare` that compares by a total preorder, the list view shows the cards it was
  -- given, each before all that come after it in the chosen order: by creation, by update or by due
  -- date the earlier time first going up and the later time first going down, by title as
  -- `localeCompare` says going up and against it going down. By due date, in both directions, no card
  -- without one stands before a card with one.
  pub sort_flat_cards-IsListed :
      (cards : List FlatCard) (key : BoardListSortKey) (dir : SortDir)
      → Permᴰ (sort_flat_cards h cards key dir) cards
        × IsListed (InOrder h key dir) (sort_flat_cards h cards key dir)
        × IsDueFirst (sort_flat_cards h cards by_due_date dir)
  unfolding sort_flat_cards
  sort_flat_cards-IsListed cards key dir =
      let by = λ (k : BoardListSortKey).
        sort-IsSortedBy (compare_cards h k dir) (compare-total k dir) (compare-transitive k dir)
          cards in
      (
        sort-Permᴰ (compare_cards h key dir) (compare-total key dir) (compare-transitive key dir)
            cards,
        sorted-IsListed key dir _ (by key),
        sorted-IsDueFirst dir _ (by by_due_date),
      )
