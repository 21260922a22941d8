-- ===== src/Frontend/Queries/CardKeys.antt =====
-- `cardKeys` of frontend/src/features/cards/use-cards.ts, `sanitizeCardListParams` of cards.api.ts
-- and the like of frontend/src/features/boards/use-boards.ts.
use kan_pad.Base.{
  ℕ, ◌≤◌, ◌≡◌, get_or, Bool, true, false, ◌&&◌, Option, none, some, arith, leb, ◌==◌, if◌then◌else◌,
}
use kan_pad.Base.Int.{ℤ, pos, negsuc}

-- A `number`: `fractional` stands for those that are no integer, NaN and the infinities among them.
pub data JsNumber : Type 0 where
  integer : ℤ → JsNumber
  fractional : JsNumber

-- `Number.isInteger(n) && n >= 1 && n <= most`; without a bound `most` is `none`
abbrev at_most : Option ℕ → ℕ → Bool
at_most none n = true
at_most (some most) n = leb n most

unfoldable pub positive_integer : Option ℕ → Option JsNumber → Option ℕ
positive_integer most (some (integer (pos n))) = if leb 1 n && at_most most n then some n else none
positive_integer most _ = none

abbrev pub card_list_default_page : ℕ
card_list_default_page = 1

abbrev pub card_list_default_limit : ℕ
card_list_default_limit = 50

abbrev pub card_list_max_limit : ℕ
card_list_max_limit = 100

-- `sanitizeCardListParams`
unfoldable pub sanitize_card_list_params : Option JsNumber → Option JsNumber → ℕ × ℕ
unfolding positive_integer
sanitize_card_list_params page limit = (
  get_or (positive_integer none page) card_list_default_page,
  get_or (positive_integer (some card_list_max_limit) limit) card_list_default_limit,
)

-- the keys of the queries under `'cards'`: `['cards', columnId, page, limit]`, and
-- `['cards', columnId]`, which the mutations write
pub data CardsKey : Type 0 where
  page_of : ℕ → ℕ → ℕ → CardsKey
  column : ℕ → CardsKey

unfoldable pub same_key : CardsKey → CardsKey → Bool
same_key (page_of c p l) (page_of d q m) = c == d && p == q && l == m
same_key (column c) (column d) = c == d
same_key _ _ = false

-- `queryKey[1]`
unfoldable pub column_of_key : CardsKey → ℕ
column_of_key (page_of c p l) = c
column_of_key (column c) = c

-- `cardKeys.byColumn`, the key under which `useCards` reads
unfoldable pub by_column : ℕ → Option JsNumber → Option JsNumber → CardsKey
unfolding sanitize_card_list_params
by_column column_id page limit =
    let (p, l) = sanitize_card_list_params page limit in page_of column_id p l

-- `sanitizePage` and `sanitizeLimit` of `useBoards` and `useArchivedBoards`, and
-- `sanitizeProjectId`
unfoldable pub sanitize_page : Option JsNumber → Option ℕ
unfolding positive_integer
sanitize_page page = positive_integer none page

unfoldable pub sanitize_limit : Option JsNumber → Option ℕ
unfolding positive_integer
sanitize_limit limit = positive_integer (some 100) limit

unfoldable pub sanitize_project_id : Option JsNumber → Option ℕ
unfolding positive_integer
sanitize_project_id project_id = positive_integer none project_id

positive_integer-bounds :
    (most : ℕ) (n : Option JsNumber) (m : ℕ)
    → positive_integer (some most) n ≡ some m
    → (1 ≤ m) × (m ≤ most)
unfolding positive_integer
positive_integer-bounds most none m e = absurd (ground arith)
positive_integer-bounds most (some fractional) m e = absurd (ground arith)
positive_integer-bounds most (some (integer (negsuc n))) m e = absurd (ground arith)
positive_integer-bounds most (some (integer (pos n))) m e = ground arith

positive_integer-positive : (n : Option JsNumber) (m : ℕ) → positive_integer none n ≡ some m → 1 ≤ m
unfolding positive_integer
positive_integer-positive none m e = absurd (ground arith)
positive_integer-positive (some fractional) m e = absurd (ground arith)
positive_integer-positive (some (integer (negsuc n))) m e = absurd (ground arith)
positive_integer-positive (some (integer (pos n))) m e = ground arith

-- Whatever page and limit a caller gives, the list of a column's cards is asked for with a page from
-- 1 on and a limit from 1 to 100; and a page from 1 on and a limit from 1 to 100 are sent as given.
pub sanitize_card_list_params-bounds :
    (page limit : Option JsNumber)
    → let (p, l) = sanitize_card_list_params page limit in
      (1 ≤ p)
      × (1 ≤ l)
      × (l ≤ 100)
      × ((n : ℕ) → page ≡ some (integer (pos n)) → 1 ≤ n → p ≡ n)
      × ((n : ℕ) → limit ≡ some (integer (pos n)) → 1 ≤ n → n ≤ 100 → l ≡ n)
unfolding sanitize_card_list_params positive_integer
sanitize_card_list_params-bounds page limit = (
  page_at_least,
  ground (arith, positive_integer-bounds 100 limit),
  ground (arith, positive_integer-bounds 100 limit),
  λ n e h. rw e (ground arith),
  λ n e h k. rw e (ground arith),
)
  where
    page_at_least : 1 ≤ get_or (positive_integer none page) 1
    page_at_least = ground (arith, positive_integer-positive page)
