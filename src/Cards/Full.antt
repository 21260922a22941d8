-- ===== src/Cards/Full.antt =====
-- A dense column is full: its last position, n-1, is taken.
use kan_pad.Base.{
  ℕ, zero, suc, ◌≤◌, ap, ◌∙◌, sym, ◌≡◌, refl, inl, inr, Bool, true, false, not, List, [], ◌∷◌,
  Member, Member-select, arith, length, select, Bool-cases, Option-cases, ◌==◌, any-false,
}
use kan_pad.Base.Int.{ℤ, pos_part, pos, negsuc, ◌-ℤ◌, ◌<ℤ◌, int_laws, eqb_ℤ, eqb_ℤ_iff, eq_of_parts}
use kan_pad.Cards.Access.{get_max_position_in_column}
use kan_pad.Cards.Dense.{IsDense, InRange, count_in}
use kan_pad.Cards.Passes.{in_column}
use kan_pad.Store.Action.{ok}
use kan_pad.Store.Distinct.{Distinct, Distinct-select}
use kan_pad.Store.Entities.{Card, Db}
use kan_pad.Store.Laws.{IsLawful}
use kan_pad.Store.Repository.{Orm}

last-InRange : (n : ℕ) (k : ℤ) → InRange n k → n ≤ suc (pos_part k) → k ≡ pos n -ℤ pos 1
unfolding ◌-ℤ◌
last-InRange n k r h = ground arith

select-none :
    (p : Card → Bool) (cs : List Card)
    → ((c : Card) → Member c cs → p c ≡ false)
    → select (λ c. not (p c)) cs ≡ cs
select-none p [] h = refl
select-none p (c ∷ cs) h = ground (arith, h c (inl refl), select-none p cs (λ d m. h d (inr m)))

-- A test that one row at most passes takes one row at most away.
length-select-one :
    (p : Card → Bool) (cs : List Card)
    → Distinct Card.id cs
    → ((c d : Card) → Member c cs → Member d cs → p c ≡ true → p d ≡ true → c.id ≡ d.id)
    → length cs ≤ suc (length (select (λ c. not (p c)) cs))
length-select-one p [] u h = omega arith
length-select-one p (c ∷ cs) u h = elim (Bool-cases (p c)) [
  | inl e ↦
      let others = select-none p cs (λ d m. elim (Bool-cases (p d)) [
        | inl f ↦
            let same = h c d (inl refl) (inr m) e f in
            let no = any-false (λ y. c.id == Card.id y) d cs u.0 m in absurd (ground arith)
        | inr f ↦ f
      ]) in
      rw (e, others) (omega arith)
  | inr e ↦
      let rest = length-select-one p cs u.1 (λ a b ma mb. h a b (inr ma) (inr mb)) in
      rw e (omega (arith, rest))
]

-- n cards at different positions below m: n is at most m.
length-le :
    (m : ℕ) (cs : List Card)
    → Distinct Card.id cs
    → ((c : Card) → Member c cs → InRange m c.position)
    → ((c d : Card) → Member c cs → Member d cs → c.position ≡ d.position → c.id ≡ d.id)
    → length cs ≤ m
length-le zero [] u r h = omega arith
length-le zero (c ∷ cs) u r h = absurd (omega (arith, r c (inl refl)))
length-le (suc m) cs u r h =
    let top : Card → Bool = λ c. eqb_ℤ (Card.position c) (pos m) in
    let few = length-select-one top cs u (λ c d mc md p q.
      h c d mc md
        ((eqb_ℤ_iff c.position (pos m)).0 p ∙ sym ((eqb_ℤ_iff d.position (pos m)).0 q))) in
    let rest =
      length-le m (select (λ c. not (top c)) cs) (Distinct-select Card.id _ cs u)
        (λ c k.
          let (mc, p) = Member-select (λ d. not (top d)) c cs k in let w = r c mc in ground arith)
        (λ c d kc kd.
          h c d (Member-select (λ d. not (top d)) c cs kc).0
            (Member-select (λ d. not (top d)) d cs kd).0) in
    omega (arith, few, rest)

module _ (o : Orm) (laws : IsLawful o) (db : Db) (distinct : Distinct Card.id db.cards)
    (column_id : ℕ) (dense : IsDense column_id db.cards) where
  abbrev column_cards : List Card
  column_cards = select (in_column column_id) db.cards

  not_below :
      (m : ℕ)
      → ((c : Card) → Member c column_cards → c.position <ℤ pos m)
      → count_in column_id db.cards ≤ m
  not_below m h =
      length-le m column_cards (Distinct-select Card.id _ db.cards distinct)
        (λ c k.
          let (mc, p) = Member-select (in_column column_id) c db.cards k in
          (let r = dense.in_range c mc p in r.0, h c k))
        (λ c d kc kd.
          let (mc, p) = Member-select (in_column column_id) c db.cards kc in
          let (md, q) = Member-select (in_column column_id) d db.cards kd in
          dense.once c d mc md p q)

  -- The largest position of a dense column is one less than the number of its cards.
  pub get_max_position-dense :
      get_max_position_in_column o column_id db
      ≡ (ok (pos (count_in column_id db.cards) -ℤ pos 1), db)
  unfolding get_max_position_in_column
  get_max_position-dense =
      elim (Option-cases (o.cards.max Card.position (in_column column_id) db.cards)) [
        | inl e ↦
            let none_there = not_below 0 (λ c k.
              let (mc, p) = Member-select (in_column column_id) c db.cards k in
              let no = laws.cards.max-none Card.position (in_column column_id) db.cards c e mc in
              absurd (ground arith)) in
            let empty : negsuc 0 ≡ pos (count_in column_id db.cards) -ℤ pos 1 =
              eq_of_parts _ _ (omega (int_laws, none_there)) in
            rw e (ap (λ p. (ok p, db)) empty)
        | inr (k, e) ↦
            let (c, mc, p, q) =
              laws.cards.max_attained Card.position (in_column column_id) db.cards k e in
            let range = dense.in_range c mc p in
            let r : InRange (count_in column_id db.cards) k = rw q at range in
            let high = not_below (suc (pos_part k)) (λ d m.
              let (md, w) = Member-select (in_column column_id) d db.cards m in
              let le =
                laws.cards.max-some Card.position (in_column column_id) db.cards k d e md w in
              omega (arith, le, r)) in
            let top : k ≡ pos (count_in column_id db.cards) -ℤ pos 1 = last-InRange _ k r high in
            rw e (ap (λ p. (ok p, db)) top)
      ]
