-- ===== src/Frontend/Drag/Places.antt =====
-- A list of ids beside a column of the table, and the places in it when an id is taken out or put in.
use mathlib.Core.Path.{subst}
use kan_pad.Base.{
  ℕ, zero, suc, ◌-◌, ◌≤◌, ◌≡◌, ◌≢◌, refl, ap, true, false, List, Member, some, arith, length, ltb,
  if◌then◌else◌,
}
use kan_pad.Base.Int.{pos, pos_part, ◌+ℤ◌, ◌-ℤ◌}
use kan_pad.Cards.Dense.{IsDense, InRange, count_in}
use kan_pad.Cards.Passes.{in_column, shift_down, shift_up}
use kan_pad.Frontend.Arrays.{nth, insert_at, remove_at, nth-remove_at, nth-insert_at, nth-below}
use kan_pad.Store.Entities.{Card}

-- `ids` is the order of the column in the table: the card with the position i stands at the index i,
-- and at every index there is a card of the column.
pub record Agrees (ids : List ℕ) (column_id : ℕ) (t : List Card) : Type 0 where
  pub shown :
      (c : Card)
      → Member c t
      → in_column column_id c ≡ true
      → (p : ℕ) × (Card.position c ≡ pos p) × (nth ids p ≡ some (Card.id c))
  pub stored :
      (i : ℕ) (id : ℕ)
      → nth ids i ≡ some id
      → (c : Card) × Member c t
        × (in_column column_id c ≡ true)
        × (Card.id c ≡ id)
        × (Card.position c ≡ pos i)

-- The list is no longer than the column, so its indices are positions of the column.
pub length-Agrees :
    (ids : List ℕ) (column_id : ℕ) (t : List Card)
    → Agrees ids column_id t
    → IsDense column_id t
    → length ids ≤ count_in column_id t
length-Agrees ids column_id t agrees dense = bound (length ids) refl
  where
    bound : (n : ℕ) → n ≡ length ids → n ≤ count_in column_id t
    bound zero e = omega arith
    bound (suc n) e =
        let (id, at) = nth-below ids n (omega arith) in
        let (c, m, i, _, p) = agrees.stored n id at in
        let r = subst (InRange (count_in column_id t)) p (dense.in_range c m i) in
        omega (arith, r.1)

pub pos_injective : {m n : ℕ} → pos m ≡ pos n → m ≡ n
pos_injective e = ap pos_part e

-- the places on both sides of one that is closed or opened
pub shift_down-pos :
    (p q : ℕ) → q ≢ p → shift_down (pos p) (pos q) ≡ pos (if ltb q p then q else q - 1)
unfolding shift_down ◌-ℤ◌
shift_down-pos p q h = ground arith

pub shift_up-pos : (i q : ℕ) → shift_up (pos i) (pos q) ≡ pos (if ltb q i then q else suc q)
unfolding shift_up ◌+ℤ◌
shift_up-pos i q = ground arith

pub nth-closed :
    (p q : ℕ) (ids : List ℕ)
    → q ≢ p
    → nth (remove_at p ids) (if ltb q p then q else q - 1) ≡ nth ids q
nth-closed p q ids h = ground (arith, nth-remove_at p ids (if ltb q p then q else q - 1), fill)
  where
    fill : ltb q p ≡ false → suc (q - 1) ≡ q
    fill e = ground arith

pub nth-entered : (i id : ℕ) (ids : List ℕ) → i ≤ length ids → nth (insert_at i id ids) i ≡ some id
nth-entered i id ids h = ground (arith, nth-insert_at i id ids i h)

pub nth-opened :
    (i q : ℕ) (id : ℕ) (ids : List ℕ)
    → i ≤ length ids
    → nth (insert_at i id ids) (if ltb q i then q else suc q) ≡ nth ids q
nth-opened i q id ids h = ground (arith, nth-insert_at i id ids (if ltb q i then q else suc q) h)

pub reclosed_at :
    (p i : ℕ) (ids : List ℕ) → nth ids (if ltb i p then i else suc i) ≡ nth (remove_at p ids) i
reclosed_at p i ids = ground (arith, nth-remove_at p ids i)

pub reclosed_ne : (p i : ℕ) → (if ltb i p then i else suc i) ≢ p
reclosed_ne p i e = ground arith

pub reclosed_back :
    (p i : ℕ) → (let q = if ltb i p then i else suc i in if ltb q p then q else q - 1) ≡ i
reclosed_back p i = ground arith
