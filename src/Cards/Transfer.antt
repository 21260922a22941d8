-- ===== src/Cards/Transfer.antt =====
-- A card goes to another column: what the two passes and the writes do to the order of both columns.
use kan_pad.Base.{
  ℕ, suc, ap, ◌∙◌, sym, ◌≡◌, refl, ◌≢◌, true, false, List, map, Member, map-Member, arith,
  Bool-cases, inl, inr, ◌==◌, ==_iff, ==_refl, if◌then◌else◌,
}
use kan_pad.Base.Int.{ℤ, ◌+ℤ◌, ◌-ℤ◌}
use kan_pad.Cards.Counting.{length-select-compose, length-select-without}
use kan_pad.Cards.Dense.{IsDense, InRange, count_in}
use kan_pad.Cards.Passes.{shift_down, shift_up, in_column, reposition}
use kan_pad.Store.Distinct.{Distinct}
use kan_pad.Store.Entities.{Card}

shift_down-InRange :
    (n : ℕ) (old p : ℤ)
    → InRange (suc n) old
    → InRange (suc n) p
    → p ≢ old
    → InRange n (shift_down old p)
unfolding shift_down ◌-ℤ◌
shift_down-InRange n old p ho hp h = ground arith

shift_down-injective :
    (old p q : ℤ) → p ≢ old → q ≢ old → shift_down old p ≡ shift_down old q → p ≡ q
unfolding shift_down ◌-ℤ◌
shift_down-injective old p q hp hq e = ground arith

shift_up-InRange : (n : ℕ) (new p : ℤ) → InRange n p → InRange (suc n) (shift_up new p)
unfolding shift_up ◌+ℤ◌
shift_up-InRange n new p hp = ground arith

shift_up-ne : (new p : ℤ) → shift_up new p ≢ new
unfolding shift_up ◌+ℤ◌
shift_up-ne new p h = ground arith

shift_up-injective : (new p q : ℤ) → shift_up new p ≡ shift_up new q → p ≡ q
unfolding shift_up ◌+ℤ◌
shift_up-injective new p q e = ground arith

-- the row of each card after `card` has gone to the position `new` of the column `target`
abbrev pub transferred : Card → ℕ → ℤ → Card → Card
transferred card target new c =
    if c.id == card.id
    then record c { column_id = target; position = new }
    else reposition target (shift_up new) (reposition card.column_id (shift_down card.position) c)

module _ (card : Card) (target : ℕ) (new : ℤ) (apart : (card.column_id == target) ≡ false) where
  pub transferred-id : (c : Card) → Card.id (transferred card target new c) ≡ c.id
  transferred-id c = ground arith

  pub in_source :
      (c : Card)
      → in_column card.column_id (transferred card target new c) ≡ true
      → ((c.id == card.id) ≡ false)
        × (in_column card.column_id c ≡ true)
        × (Card.position (transferred card target new c) ≡ shift_down card.position c.position)
  in_source c h = ground arith

  pub in_target :
      (c : Card)
      → (c.id == card.id) ≡ false
      → in_column target (transferred card target new c) ≡ true
      → (in_column target c ≡ true)
        × (Card.position (transferred card target new c) ≡ shift_up new c.position)
  in_target c n h = ground arith

  pub position_self :
      (c : Card) → (c.id == card.id) ≡ true → Card.position (transferred card target new c) ≡ new
  position_self c h = ground arith

  module _ (t : List Card) (distinct : Distinct Card.id t) (here : Member card t) where
    count-source :
        suc (count_in card.column_id (map (transferred card target new) t))
        ≡ count_in card.column_id t
    count-source =
        ap suc (length-select-compose (in_column card.column_id) (transferred card target new) t)
        ∙ length-select-without (in_column card.column_id) card.id
            (λ c. in_column card.column_id (transferred card target new c)) card t distinct here
            refl (==_refl card.column_id) (ground (arith, ==_refl card.id, apart))
            (λ c h. ground (arith, h, apart))

    count-target : count_in target (map (transferred card target new) t) ≡ suc (count_in target t)
    count-target =
        length-select-compose (in_column target) (transferred card target new) t
        ∙ sym (
            length-select-without (λ c. in_column target (transferred card target new c)) card.id
              (in_column target) card t distinct here refl
              (ground (arith, ==_refl card.id, ==_refl target)) apart
              (λ c h. ground (arith, h, apart)))

    left-apart :
        (c : Card)
        → IsDense card.column_id t
        → Member c t
        → (c.id == card.id) ≡ false
        → in_column card.column_id c ≡ true
        → c.position ≢ card.position
    left-apart c dense m h i e =
        let same = dense.once c card m here i (==_refl card.column_id) e in absurd (ground arith)

    -- The column that the card leaves closes its gap.
    pub source-IsDense :
        IsDense card.column_id t → IsDense card.column_id (map (transferred card target new) t)
    source-IsDense dense = record {
      in_range = λ c m h.
          let (x, mx, e) = map-Member (transferred card target new) c t m in
          let (nx, ix, p) = in_source x (ap (in_column card.column_id) (sym e) ∙ h) in
          let old = rw (← count-source) at (dense.in_range card here (==_refl card.column_id)) in
          let was = rw (← count-source) at (dense.in_range x mx ix) in
          rw (e, p)
            (shift_down-InRange _ card.position x.position old was (left-apart x dense mx nx ix));
      once = λ c d mc md hc hd same.
          let (x, mx, ex) = map-Member (transferred card target new) c t mc in
          let (y, my, ey) = map-Member (transferred card target new) d t md in
          let (nx, ix, p) = in_source x (ap (in_column card.column_id) (sym ex) ∙ hc) in
          let (ny, iy, q) = in_source y (ap (in_column card.column_id) (sym ey) ∙ hd) in
          let moved_same =
            shift_down-injective card.position x.position y.position (left-apart x dense mx nx ix)
              (left-apart y dense my ny iy)
              (sym p ∙ ap Card.position (sym ex) ∙ same ∙ ap Card.position ey ∙ q) in
          ap Card.id ex
          ∙ transferred-id x
          ∙ dense.once x y mx my ix iy moved_same
          ∙ sym (transferred-id y)
          ∙ ap Card.id (sym ey);
    }

    target-once :
        IsDense target t
        → (x y : Card) → Member x t
        → Member y t
        → in_column target (transferred card target new x) ≡ true
        → in_column target (transferred card target new y) ≡ true
        → Card.position (transferred card target new x)
          ≡ Card.position (transferred card target new y)
        → x.id ≡ y.id
    target-once dense x y mx my hx hy e = elim (Bool-cases (x.id == card.id)) [
      | inl f ↦ elim (Bool-cases (y.id == card.id)) [
        | inl g ↦ (==_iff _ _).0 f ∙ sym ((==_iff _ _).0 g)
        | inr g ↦
            absurd
              (shift_up-ne new y.position (sym (in_target y g hy).1 ∙ sym e ∙ position_self x f))
      ]
      | inr f ↦ elim (Bool-cases (y.id == card.id)) [
        | inl g ↦
            absurd (shift_up-ne new x.position (sym (in_target x f hx).1 ∙ e ∙ position_self y g))
        | inr g ↦
            let (ix, p) = in_target x f hx in
            let (iy, q) = in_target y g hy in
            dense.once x y mx my ix iy
              (shift_up-injective new x.position y.position (sym p ∙ e ∙ q))
      ]
    ]

    -- The column that it enters makes room.
    pub target-IsDense :
        IsDense target t
        → InRange (suc (count_in target t)) new
        → IsDense target (map (transferred card target new) t)
    target-IsDense dense range = record {
      in_range = λ c m h.
          let (x, mx, e) = map-Member (transferred card target new) c t m in
          let hx = ap (in_column target) (sym e) ∙ h in
          elim (Bool-cases (x.id == card.id)) [
            | inl f ↦ rw (count-target, e, position_self x f) range
            | inr f ↦
                let (ix, p) = in_target x f hx in
                rw (count-target, e, p) (shift_up-InRange _ new x.position (dense.in_range x mx ix))
          ];
      once = λ c d mc md hc hd same.
          let (x, mx, ex) = map-Member (transferred card target new) c t mc in
          let (y, my, ey) = map-Member (transferred card target new) d t md in
          ap Card.id ex
          ∙ transferred-id x
          ∙ target-once dense x y mx my (ap (in_column target) (sym ex) ∙ hc)
              (ap (in_column target) (sym ey) ∙ hd)
              (ap Card.position (sym ex) ∙ same ∙ ap Card.position ey)
          ∙ sym (transferred-id y)
          ∙ ap Card.id (sym ey);
    }
