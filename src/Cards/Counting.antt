-- ===== src/Cards/Counting.antt =====
-- How many rows a test admits when one row changes.
use kan_pad.Base.{
  ℕ, suc, ◌≡◌, refl, inl, inr, Bool, true, false, List, [], ◌∷◌, map, Member, arith, any, any-false,
  length, select, ◌==◌,
}
use kan_pad.Store.Distinct.{Distinct}
use kan_pad.Store.Entities.{Card}

pub length-select-compose :
    (p : Card → Bool) (f : Card → Card) (t : List Card)
    → length (select p (map f t)) ≡ length (select (λ c. p (f c)) t)
length-select-compose p f [] = refl
length-select-compose p f (c ∷ cs) = ground (arith, length-select-compose p f cs)

module _ (p : Card → Bool) (i : ℕ) where
  length-select-absent :
      (q : Card → Bool) (t : List Card)
      → ((c : Card) → (i == c.id) ≡ false → q c ≡ p c)
      → any (λ c. i == Card.id c) t ≡ false
      → length (select q t) ≡ length (select p t)
  length-select-absent q [] h n = refl
  length-select-absent q (c ∷ cs) h n = ground (arith, h c, length-select-absent q cs h)

  -- without the row
  pub length-select-without :
      (q : Card → Bool) (card : Card) (t : List Card)
      → Distinct Card.id t
      → Member card t
      → card.id ≡ i
      → p card ≡ true
      → q card ≡ false
      → ((c : Card) → (i == c.id) ≡ false → q c ≡ p c)
      → suc (length (select q t)) ≡ length (select p t)
  length-select-without q card [] d m e hp hq h = absurd m
  length-select-without q card (c ∷ cs) d (inl s) e hp hq h =
      let same_p : p c ≡ true = rw (← s) hp in
      let same_q : q c ≡ false = rw (← s) hq in
      let at_c : c.id ≡ i = rw (← s) e in
      ground (arith, length-select-absent q cs h (rw (← at_c) d.0))
  length-select-without q card (c ∷ cs) d (inr m) e hp hq h =
      let other = any-false (λ y. c.id == Card.id y) card cs d.0 m in
      ground (arith, h c, length-select-without q card cs d.1 m e hp hq h)
