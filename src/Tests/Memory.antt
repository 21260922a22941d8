-- ===== src/Tests/Memory.antt =====
-- A database in memory, where the hypotheses on TypeORM and MariaDB hold: tables are lists, a find
-- scans them in order, and a new row takes an id above those in use.
use kan_pad.Base.{
  ℕ, ◌+◌, zero, suc, Bool, not, List, [], ◌∷◌, ◌++◌, map, Option, none, some, select, any, ◌==◌,
  if◌then◌else◌,
}
use kan_pad.Base.Int.{ℤ, pos, negsuc, leb_ℤ}
use kan_pad.Store.Repository.{Repository, Order, asc, desc}
use kan_pad.Store.Repository.Documented.{replace}

abbrev pub clip : ℤ → ℕ
clip (pos n) = n
clip (negsuc n) = 0

abbrev pub larger : ℤ → Option ℤ → ℤ
larger a none = a
larger a (some b) = if leb_ℤ a b then b else a

module _ {Row : Type 0} where
  abbrev pub find_first : (Row → Bool) → List Row → Option Row
  find_first p [] = none
  find_first p (x ∷ xs) = let rest = find_first p xs in if p x then some x else rest

  abbrev pub before : Order → (Row → ℤ) → Row → Row → Bool
  before asc key x y = leb_ℤ (key x) (key y)
  before desc key x y = leb_ℤ (key y) (key x)

  abbrev pub insert_by : Order → (Row → ℤ) → Row → List Row → List Row
  insert_by o key x [] = x ∷ []
  insert_by o key x (y ∷ ys) =
      let rest = insert_by o key x ys in if before o key x y then x ∷ y ∷ ys else y ∷ rest

  abbrev pub sort_by : Order → (Row → ℤ) → List Row → List Row
  sort_by o key [] = []
  sort_by o key (x ∷ xs) = insert_by o key x (sort_by o key xs)

  abbrev pub take : ℕ → List Row → List Row
  take zero xs = []
  take (suc n) [] = []
  take (suc n) (x ∷ xs) = x ∷ take n xs

  abbrev pub drop : ℕ → List Row → List Row
  drop zero xs = xs
  drop (suc n) [] = []
  drop (suc n) (x ∷ xs) = drop n xs

  abbrev pub largest : (Row → ℤ) → (Row → Bool) → List Row → Option ℤ
  largest key p [] = none
  largest key p (x ∷ xs) =
      let rest = largest key p xs in if p x then some (larger (key x) rest) else rest

  abbrev pub fresh : (Row → ℕ) → List Row → ℕ
  fresh id [] = 1
  fresh id (x ∷ xs) = id x + fresh id xs

  abbrev pub save_row : (Row → Row → Bool) → Row → List Row → List Row
  save_row same x t = if any (same x) t then replace same x t else t ++ x ∷ []

  abbrev pub in_memory : (Row → Row → Bool) → (Row → ℕ) → Repository Row
  in_memory same id = record {
    find_one = find_first;
    find = select;
    find_ordered = λ o key p t. sort_by o key (select p t);
    find_page = λ limit skip p t. take (clip limit) (drop (clip skip) (select p t));
    max = largest;
    insert = λ make t.
        let row = make (record { id = fresh id t; created_at = fresh id t }) in
        (row, t ++ row ∷ []);
    save = save_row same;
    update = λ i change t. map (λ y. if id y == i then change y else y) t;
    remove = λ x t. select (λ y. not (same x y)) t;
    delete = λ p t. (select p t, select (λ y. not (p y)) t);
  }
