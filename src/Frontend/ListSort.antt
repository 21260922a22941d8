-- ===== src/Frontend/ListSort.antt =====
-- frontend/src/features/boards/board-view/board-list-sort.ts: the order of the list view of a board.
use kan_pad.Base.{
  ℕ, ◌≡◌, Bool, true, false, List, [], ◌∷◌, Option, none, some, get_or, if◌then◌else◌,
}
use kan_pad.Base.Int.{ℤ, pos, negsuc, ◌-ℤ◌, ◌*ℤ◌, leb_ℤ}
use kan_pad.Base.Text.{Text, is_empty}
pub mod Order
pub mod Sorted

pub data BoardListSortKey : Type 0 where
  by_created_at by_updated_at by_due_date by_title : BoardListSortKey

pub data SortDir : Type 0 where
  ascending descending : SortDir

-- the fields of a `FlatCard` that sorting reads, with its id
pub record FlatCard : Type 0 where
  pub id : ℕ
  pub title : Text
  pub due_date : Option Text
  pub created_at : Text
  pub updated_at : Text

-- The host's `new Date(v).getTime()`, where `none` is NaN, and `a.localeCompare(b)`.
pub record Locale : Type 0 where
  pub get_time : Text → Option ℤ
  pub locale_compare : Text → Text → ℤ

abbrev pub mul_of : SortDir → ℤ
mul_of ascending = pos 1
mul_of descending = negsuc 0

-- `!card.due_date`: absent, `null` or empty
unfoldable pub due_date_of : FlatCard → Option Text
due_date_of c = elim (FlatCard.due_date c) [
  | none ↦ none
  | some text ↦ if is_empty text then none else some text
]

module _ (h : Locale) where
  unfoldable pub time_of : Text → ℤ
  time_of v = get_or (h.get_time v) (pos 0)

  -- the cases of two due dates
  abbrev pub compare_due : SortDir → Option Text → Option Text → ℤ
  compare_due dir none none = pos 0
  compare_due dir none (some b) = pos 1
  compare_due dir (some a) none = negsuc 0
  compare_due dir (some a) (some b) = (time_of a -ℤ time_of b) *ℤ mul_of dir

  -- the function that `sort` is called with
  unfoldable pub compare_cards : BoardListSortKey → SortDir → FlatCard → FlatCard → ℤ
  unfolding time_of due_date_of
  compare_cards by_title dir a b = h.locale_compare a.title b.title *ℤ mul_of dir
  compare_cards by_due_date dir a b = compare_due dir (due_date_of a) (due_date_of b)
  compare_cards by_created_at dir a b = (time_of a.created_at -ℤ time_of b.created_at) *ℤ mul_of dir
  compare_cards by_updated_at dir a b = (time_of a.updated_at -ℤ time_of b.updated_at) *ℤ mul_of dir

-- `[...xs].sort(compare)`, which keeps the order of equal elements
unfoldable pub insert_stable {ℓ} : {A : Type ℓ} → (A → A → ℤ) → A → List A → List A
insert_stable compare x [] = x ∷ []
insert_stable compare x (y ∷ ys) =
    let rest = insert_stable compare x ys in
    if leb_ℤ (compare x y) (pos 0) then x ∷ y ∷ ys else y ∷ rest

unfoldable pub sort_stable {ℓ} : {A : Type ℓ} → (A → A → ℤ) → List A → List A
unfolding insert_stable
sort_stable compare [] = []
sort_stable compare (x ∷ xs) = insert_stable compare x (sort_stable compare xs)

unfoldable pub sort_flat_cards : Locale → List FlatCard → BoardListSortKey → SortDir → List FlatCard
unfolding compare_cards sort_stable
sort_flat_cards h cards key dir = sort_stable (compare_cards h key dir) cards
