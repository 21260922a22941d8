-- ===== src/Cards/Moving.antt =====
-- A card moves within its column: what the pass of Passes and the write of the new position do to
-- the order of the column.
use kan_pad.Base.{
  ℕ, ap, ◌∙◌, sym, ◌≡◌, ◌≢◌, true, false, List, map, Member, map-Member, arith, length-select-map,
  Bool-cases, inl, inr, ◌==◌, ==_iff, ==_refl, if◌then◌else◌,
}
use kan_pad.Base.Int.{ℤ}
use kan_pad.Cards.Dense.{
  IsDense, InRange, count_in, shift_between-InRange, shift_between-ne, shift_between-injective,
}
use kan_pad.Cards.Passes.{shift_between, in_column, reposition}
use kan_pad.Store.Entities.{Card}

-- the row of each card after `card` has moved to `new`
abbrev pub moved : Card → ℤ → Card → Card
moved card new c =
    if c.id == card.id
    then record c { position = new }
    else reposition card.column_id (shift_between card.position new) c

module _ (card : Card) (new : ℤ) where
  pub moved-id : (c : Card) → Card.id (moved card new c) ≡ c.id
  moved-id c = ground arith

  pub moved-in_column :
      (column_id : ℕ) (c : Card) → in_column column_id (moved card new c) ≡ in_column column_id c
  moved-in_column column_id c = ground arith

  position_self : (c : Card) → (c.id == card.id) ≡ true → Card.position (moved card new c) ≡ new
  position_self c h = ground arith

  position-other :
      (c : Card)
      → (c.id == card.id) ≡ false
      → in_column card.column_id c ≡ true
      → Card.position (moved card new c) ≡ shift_between card.position new c.position
  position-other c h k = ground arith

  module _ (t : List Card) (dense : IsDense card.column_id t) (here : Member card t) where
    other-apart :
        (c : Card)
        → Member c t
        → in_column card.column_id c ≡ true
        → (c.id == card.id) ≡ false
        → c.position ≢ card.position
    other-apart c m i h e =
        let same = dense.once c card m here i (==_refl card.column_id) e in absurd (ground arith)

    moved-InRange :
        (c : Card)
        → Member c t
        → in_column card.column_id c ≡ true
        → InRange (count_in card.column_id t) new
        → InRange (count_in card.column_id t) (Card.position (moved card new c))
    moved-InRange c m i r = elim (Bool-cases (c.id == card.id)) [
      | inl h ↦ rw (position_self c h) r
      | inr h ↦ rw (position-other c h i) (
          shift_between-InRange _ card.position new c.position
            (dense.in_range card here (==_refl card.column_id)) r (dense.in_range c m i))
    ]

    moved-once :
        (c d : Card)
        → Member c t
        → Member d t
        → in_column card.column_id c ≡ true
        → in_column card.column_id d ≡ true
        → Card.position (moved card new c) ≡ Card.position (moved card new d)
        → c.id ≡ d.id
    moved-once c d mc md ic id e = elim (Bool-cases (c.id == card.id)) [
      | inl h ↦ elim (Bool-cases (d.id == card.id)) [
        | inl k ↦ (==_iff _ _).0 h ∙ sym ((==_iff _ _).0 k)
        | inr k ↦ absurd (
            shift_between-ne card.position new d.position (other-apart d md id k)
              (sym (position-other d k id) ∙ sym e ∙ position_self c h))
      ]
      | inr h ↦ elim (Bool-cases (d.id == card.id)) [
        | inl k ↦ absurd (
            shift_between-ne card.position new c.position (other-apart c mc ic h)
              (sym (position-other c h ic) ∙ e ∙ position_self d k))
        | inr k ↦ dense.once c d mc md ic id (
            shift_between-injective card.position new c.position d.position (other-apart c mc ic h)
              (other-apart d md id k) (sym (position-other c h ic) ∙ e ∙ position-other d k id))
      ]
    ]

    was_in_column :
        (c x : Card)
        → c ≡ moved card new x
        → in_column card.column_id c ≡ true
        → in_column card.column_id x ≡ true
    was_in_column c x e i =
        sym (moved-in_column card.column_id x) ∙ ap (in_column card.column_id) (sym e) ∙ i

    pub moved-IsDense :
        InRange (count_in card.column_id t) new → IsDense card.column_id (map (moved card new) t)
    moved-IsDense r = record {
      in_range = λ c m i.
          let (x, mx, e) = map-Member (moved card new) c t m in
          let n =
            length-select-map (in_column card.column_id) (moved card new) t
              (moved-in_column card.column_id) in
          rw (n, e) (moved-InRange x mx (was_in_column c x e i) r);
      once = λ c d mc md ic id p.
          let (x, mx, ex) = map-Member (moved card new) c t mc in
          let (y, my, ey) = map-Member (moved card new) d t md in
          let same =
            moved-once x y mx my (was_in_column c x ex ic) (was_in_column d y ey id)
              (ap Card.position (sym ex) ∙ p ∙ ap Card.position ey) in
          ap Card.id ex ∙ moved-id x ∙ same ∙ sym (moved-id y) ∙ ap Card.id (sym ey);
    }
