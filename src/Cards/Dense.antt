-- ===== src/Cards/Dense.antt =====
-- The order of a column: the positions of its n cards are 0 … n-1, each once. What moving a card
-- within a column does to it.
use kan_pad.Base.{ℕ, ◌+◌, ◌≡◌, ◌≢◌, true, List, Member, arith, length, select, inl, inr, sym}
use kan_pad.Base.Int.{
  ℤ, pos, ◌+ℤ◌, ◌-ℤ◌, ◌≤ℤ◌, ◌<ℤ◌, pos_part, neg_part, eq_of_parts, ℤ-cases, lt_irrefl, +ℤ_parts,
  -ℤ_parts,
}
use kan_pad.Cards.Order.{clamp}
use kan_pad.Cards.Passes.{shift_between, in_column}
use kan_pad.Store.Entities.{Card}

-- `p` is one of 0 … n-1.
abbrev pub InRange : ℕ → ℤ → Type 0
InRange n p = (pos 0 ≤ℤ p) × (p <ℤ pos n)

abbrev pub count_in : ℕ → List Card → ℕ
count_in column_id t = length (select (in_column column_id) t)

pub record IsDense (column_id : ℕ) (t : List Card) : Type 0 where
  pub in_range :
      (c : Card)
      → Member c t
      → in_column column_id c ≡ true
      → InRange (count_in column_id t) (Card.position c)
  pub once :
      (c d : Card)
      → Member c t
      → Member d t
      → in_column column_id c ≡ true
      → in_column column_id d ≡ true
      → Card.position c ≡ Card.position d
      → Card.id c ≡ Card.id d

apart : (p q : ℤ) → p ≢ q → pos_part p + neg_part q ≢ pos_part q + neg_part p
apart p q h e = h (eq_of_parts p q e)

pub clamp-InRange : (n : ℕ) (p : ℤ) → InRange n p → clamp (pos n -ℤ pos 1) p ≡ p
unfolding ◌+ℤ◌ ◌-ℤ◌
clamp-InRange n p h = ground arith

pub shift_between-InRange :
    (n : ℕ) (old new p : ℤ)
    → InRange n old
    → InRange n new
    → InRange n p
    → InRange n (shift_between old new p)
unfolding shift_between ◌+ℤ◌ ◌-ℤ◌
shift_between-InRange n old new p ho hn hp = ground arith

-- The place at `new` is free.
pub shift_between-ne : (old new p : ℤ) → p ≢ old → shift_between old new p ≢ new
unfolding shift_between ◌+ℤ◌ ◌-ℤ◌
shift_between-ne old new p h = ground arith

-- Two cards that stay keep their order.
pub shift_between-mono :
    (old new p q : ℤ)
    → p ≢ old
    → q ≢ old
    → p <ℤ q
    → shift_between old new p <ℤ shift_between old new q
unfolding shift_between
shift_between-mono old new p q hp hq e = ground (
  arith,
  -ℤ_parts p (pos 1),
  -ℤ_parts q (pos 1),
  +ℤ_parts p (pos 1),
  +ℤ_parts q (pos 1),
  apart p old hp,
  apart q old hq,
)

pub shift_between-injective :
    (old new p q : ℤ)
    → p ≢ old
    → q ≢ old
    → shift_between old new p ≡ shift_between old new q
    → p ≡ q
shift_between-injective old new p q hp hq e = elim (ℤ-cases p q) [
  | inl (inl h) ↦ absurd (omega (arith, lt_irrefl e (shift_between-mono old new p q hp hq h)))
  | inl (inr h) ↦ absurd (omega (arith, lt_irrefl (sym e) (shift_between-mono old new q p hq hp h)))
  | inr h ↦ h
]
