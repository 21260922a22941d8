-- ===== src/Store/Repository/Documented.antt =====
-- What TypeORM and MariaDB document of the calls in Repository, as hypotheses for the proofs.
-- A `find` gives the rows that satisfy its test, each once, in any order.
use Prim.Native.Nat.{ℕ, suc, ◌≤◌}
use mathlib.Core.Bool.{Bool, true, false, not}
use mathlib.Core.List.{List, [], ◌∷◌, ◌++◌, map, Permᴰ}
use mathlib.Core.Logic.{◌≢◌}
use mathlib.Core.Option.{none, some}
use mathlib.Core.Path.{◌≡◌}
use kan_pad.Base.{length, any, select, Member, ◌==◌, if◌then◌else◌}
use kan_pad.Base.Int.{ℤ, pos, ◌≤ℤ◌}
use kan_pad.Store.Repository.{Repository, Order, asc, desc, Generated}

module _ {Row : Type 0} where
  -- The row with the key of `x` gives way to `x`.
  abbrev pub replace : (Row → Row → Bool) → Row → List Row → List Row
  replace same x = map (λ y. if same x y then x else y)

  abbrev pub Before : Order → (Row → ℤ) → Row → Row → Type 0
  Before asc key x y = key x ≤ℤ key y
  Before desc key x y = key y ≤ℤ key x

  abbrev pub IsOrdered : Order → (Row → ℤ) → List Row → Type 0
  IsOrdered o key [] = Unit
  IsOrdered o key (x ∷ []) = Unit
  IsOrdered o key (x ∷ y ∷ ys) = Before o key x y × IsOrdered o key (y ∷ ys)

  -- What holds of each repository; `same` compares primary keys.
  pub record IsDocumented (same : Row → Row → Bool) (r : Repository Row) : Type 0 where
    pub find_one-sound :
        (p : Row → Bool) (t : List Row) (x : Row)
        → Repository.find_one r p t ≡ some x
        → Member x t × (p x ≡ true)
    pub find_one-complete :
        (p : Row → Bool) (t : List Row) (x : Row)
        → Repository.find_one r p t ≡ none
        → Member x t
        → p x ≡ false
    pub find-Permᴰ : (p : Row → Bool) (t : List Row) → Permᴰ (Repository.find r p t) (select p t)
    pub find_ordered-Permᴰ :
        (o : Order) (key : Row → ℤ) (p : Row → Bool) (t : List Row)
        → Permᴰ (Repository.find_ordered r o key p t) (select p t)
    pub find_ordered-IsOrdered :
        (o : Order) (key : Row → ℤ) (p : Row → Bool) (t : List Row)
        → IsOrdered o key (Repository.find_ordered r o key p t)
    -- A `take` of 0 sets no limit, and an OFFSET is not negative, so this is for a `take` from 1 on and
    -- a `skip` from 0 on.
    pub find_page-sound :
        (limit skip : ℕ) (p : Row → Bool) (t : List Row) (x : Row)
        → Member x (Repository.find_page r (pos (suc limit)) (pos skip) p t)
        → Member x t × (p x ≡ true)
    pub length-find_page-le :
        (limit skip : ℕ) (p : Row → Bool) (t : List Row)
        → length (Repository.find_page r (pos (suc limit)) (pos skip) p t) ≤ suc limit
    -- a first page that is long enough
    pub find_page-Permᴰ :
        (limit : ℕ) (p : Row → Bool) (t : List Row)
        → length (select p t) ≤ suc limit
        → Permᴰ (Repository.find_page r (pos (suc limit)) (pos 0) p t) (select p t)
    pub max-none :
        (key : Row → ℤ) (p : Row → Bool) (t : List Row) (x : Row)
        → Repository.max r key p t ≡ none
        → Member x t
        → p x ≡ false
    pub max-some :
        (key : Row → ℤ) (p : Row → Bool) (t : List Row) (m : ℤ) (x : Row)
        → Repository.max r key p t ≡ some m
        → Member x t
        → p x ≡ true
        → key x ≤ℤ m
    pub max_attained :
        (key : Row → ℤ) (p : Row → Bool) (t : List Row) (m : ℤ)
        → Repository.max r key p t ≡ some m
        → (x : Row) × Member x t × (p x ≡ true) × (key x ≡ m)
    pub save_present :
        (x : Row) (t : List Row) → any (same x) t ≡ true → Repository.save r x t ≡ replace same x t
    pub save_absent :
        (x : Row) (t : List Row) → any (same x) t ≡ false → Repository.save r x t ≡ t ++ x ∷ []
    pub remove_lem :
        (x : Row) (t : List Row) → Repository.remove r x t ≡ select (λ y. not (same x y)) t
    pub delete_lem :
        (p : Row → Bool) (t : List Row)
        → Repository.delete r p t ≡ (select p t, select (λ y. not (p y)) t)

  -- What holds of a table with an automatic id besides.
  pub record IsGenerated (id : Row → ℕ) (r : Repository Row) : Type 0 where
    pub insert_lem :
        (make : Generated → Row) (t : List Row)
        → (g : Generated) × (Repository.insert r make t ≡ (make g, t ++ make g ∷ []))
          × (any (λ y. id y == Generated.id g) t ≡ false)
          × (Generated.id g ≢ 0)
    pub update_lem :
        (i : ℕ) (change : Row → Row) (t : List Row)
        → Repository.update r i change t ≡ map (λ y. if id y == i then change y else y) t
