-- ===== src/Columns/Numbering.antt =====
-- The loop of `sortCards`: `cards[i].position = i`.

use kan_pad.Base.{
  ℕ, suc, ◌+◌, ◌<◌, ◌≤◌, ap, ◌∙◌, ◌≡◌, refl, inl, inr, true, false, List, [], ◌∷◌, arith, any,
  any-false, length, Member, ◌==◌, ==_refl, if◌then◌else◌,
}
use kan_pad.Base.Int.{ℤ, pos}
use kan_pad.Columns.Service.{number_from}
use kan_pad.Store.Distinct.{Distinct, same_id}
use kan_pad.Store.Entities.{Card}
use kan_pad.Store.Repository.{Order, asc, desc}
use kan_pad.Store.Repository.Documented.{Before, IsOrdered}

pub any-number :
    (i n : ℕ) (cs : List Card)
    → any (λ c. i == Card.id c) (number_from n cs) ≡ any (λ c. i == Card.id c) cs
unfolding number_from
any-number i n [] = refl
any-number i n (c ∷ cs) = rw (any-number i (n + 1) cs) refl

pub Distinct-number :
    (n : ℕ) (cs : List Card) → Distinct Card.id cs → Distinct Card.id (number_from n cs)
unfolding number_from
Distinct-number n [] d = tt
Distinct-number n (c ∷ cs) d = (any-number c.id (n + 1) cs ∙ d.0, Distinct-number (n + 1) cs d.1)

-- the place of a row in a list, by its id
unfoldable pub index_of : ℕ → List Card → ℕ
index_of i [] = 0
index_of i (c ∷ cs) = if i == c.id then 0 else suc (index_of i cs)

pub index_of-lt :
    (c : Card) (cs : List Card) → any (same_id Card.id c) cs ≡ true → index_of c.id cs < length cs
unfolding index_of
index_of-lt c [] h = ground arith
index_of-lt c (d ∷ ds) h = ground (arith, index_of-lt c ds)

pub number_from-Member :
    (n : ℕ) (c : Card) (cs : List Card)
    → Member c cs
    → Distinct Card.id cs
    → Member (record c { position = pos (n + index_of c.id cs) }) (number_from n cs)
unfolding number_from index_of
number_from-Member n c [] m d = absurd m
number_from-Member n c (x ∷ xs) (inl h) d =
    inl (rw (h, ==_refl x.id) (ap (λ p. record x { position = pos p }) (omega arith)))
number_from-Member n c (x ∷ xs) (inr m) d =
    let rest = number_from-Member (n + 1) c xs m d.1 in
    let other : (c.id == x.id) ≡ false =
      let no = any-false (λ y. x.id == Card.id y) c xs d.0 m in ground arith in
    let at_next : n + 1 + index_of c.id xs ≡ n + index_of c.id (x ∷ xs) = ground (arith, other) in
    inr (rw at_next at rest)

pub index_of-injective :
    (c d : Card) (cs : List Card)
    → any (same_id Card.id c) cs ≡ true
    → any (same_id Card.id d) cs ≡ true
    → index_of c.id cs ≡ index_of d.id cs
    → c.id ≡ d.id
unfolding index_of
index_of-injective c d [] mc md e = ground arith
index_of-injective c d (x ∷ xs) mc md e = ground (arith, index_of-injective c d xs)

Before-trans :
    (order : Order) (key : Card → ℤ) (x y z : Card)
    → Before order key x y
    → Before order key y z
    → Before order key x z
Before-trans asc key x y z h k = omega arith
Before-trans desc key x y z h k = omega arith

Before-refl : (order : Order) (key : Card → ℤ) (x : Card) → Before order key x x
Before-refl asc key x = omega arith
Before-refl desc key x = omega arith

module _ (order : Order) (key : Card → ℤ) where
  IsOrdered-first :
      (x y : Card) (xs : List Card)
      → IsOrdered order key (x ∷ xs)
      → Member y xs
      → Before order key x y
  IsOrdered-first x y [] h m = absurd m
  IsOrdered-first x y (z ∷ zs) h (inl e) = rw e h.0
  IsOrdered-first x y (z ∷ zs) h (inr m) =
      Before-trans order key x z y h.0 (IsOrdered-first z y zs h.1 m)

  IsOrdered-rest :
      (x : Card) (xs : List Card) → IsOrdered order key (x ∷ xs) → IsOrdered order key xs
  IsOrdered-rest x [] h = tt
  IsOrdered-rest x (y ∷ ys) h = h.1

  -- in an ordered list the earlier of two rows is not after the other
  pub index_of-Before :
      (c d : Card) (cs : List Card)
      → Distinct Card.id cs
      → IsOrdered order key cs
      → Member c cs
      → Member d cs
      → index_of c.id cs ≤ index_of d.id cs
      → Before order key c d
  unfolding index_of
  index_of-Before c d [] u h mc md e = absurd mc
  index_of-Before c d (x ∷ xs) u h (inl p) (inl q) e = rw (p, q) (Before-refl order key x)
  index_of-Before c d (x ∷ xs) u h (inl p) (inr md) e = rw p (IsOrdered-first x d xs h md)
  index_of-Before c d (x ∷ xs) u h (inr mc) (inl q) e =
      let no = any-false (λ y. x.id == Card.id y) c xs u.0 mc in absurd (ground arith)
  index_of-Before c d (x ∷ xs) u h (inr mc) (inr md) e =
      let no_c = any-false (λ y. x.id == Card.id y) c xs u.0 mc in
      let no_d = any-false (λ y. x.id == Card.id y) d xs u.0 md in
      index_of-Before c d xs u.1 (IsOrdered-rest x xs h) mc md (ground arith)
