-- ===== src/Cards/Reorder.antt =====
-- `update` with a new position in the same column: the whole method, from the lookup of the card to
-- its result.
use kan_pad.Base.{
  ℕ, ap, ap₂, ◌∙◌, sym, ◌≡◌, refl, ◌≢◌, inl, inr, true, false, none, some, List, map, map-map,
  map-cong, Member, Member-map, arith, length-select-map, Bool-cases, ◌==◌, ==_refl, if◌then◌else◌,
}
use mathlib.Core.Path.{subst, subst₂}
use kan_pad.Base.Int.{ℤ, eqb_ℤ, eqb_ℤ_iff}
use kan_pad.Cards.Access.{update_card}
use kan_pad.Cards.Dense.{IsDense, InRange, count_in, clamp-InRange}
use kan_pad.Cards.Moving.{moved, moved-id, moved-IsDense}
use kan_pad.Cards.Order.{clamp, reorder_within_column}
use kan_pad.Cards.Ownership.{OwnsCard, find_card_by_id-owned}
use kan_pad.Cards.Passes.{
  shift_between, in_column, reposition, last_position, reposition_id, shift_between_self,
  reorder_within_column-pass,
}
use kan_pad.Cards.Service.{UpdateCardDto, place, update_steps, update}
use kan_pad.Store.Action.{ok, skip, >>=-ok, transaction-ok}
use kan_pad.Store.Distinct.{Distinct-map}
use kan_pad.Store.Entities.{Card, Db}
use kan_pad.Store.Keyed.{IsKeyed, find_one-Member}
use kan_pad.Store.Laws.{IsLawful}
use kan_pad.Store.Repository.{Orm}

-- the body of a request that only moves a card
abbrev pub move_to : ℤ → UpdateCardDto
move_to new = record {
  title = none;
  column_id = none;
  position = some new;
  description = none;
  due_date = none;
}

module _ (o : Orm) (laws : IsLawful o) (card : Card) (new : ℤ) (db : Db) (keyed : IsKeyed db)
    (here : Member card db.cards) (dense : IsDense card.column_id db.cards)
    (range : InRange (count_in card.column_id db.cards) new) where
  -- the write of the position, after the pass
  update_card-moved :
      (t : List Card)
      → t ≡ map (reposition card.column_id (shift_between card.position new)) db.cards
      → update_card o card.id (λ c. record c { position = new }) (record db { cards = t })
        ≡ (ok tt, record db { cards = map (moved card new) db.cards })
  update_card-moved t e =
      let updated = laws.new_cards.update_lem card.id (λ c. record c { position = new }) t in
      let mapped =
        map-map (reposition card.column_id (shift_between card.position new))
          (λ c. if Card.id c == card.id then record c { position = new } else c) db.cards in
      ap (λ u. (ok tt, record db { cards = u }))
        (updated ∙ ap (map _) e ∙ mapped ∙ map-cong _ _ db.cards (λ c m. ground arith))

  pass-between :
      card.position ≢ new
      → reorder_within_column o card.column_id card.position new db ≡ (
        ok tt,
        record db {
          cards = map (reposition card.column_id (shift_between card.position new)) db.cards;
        },
      )
  pass-between apart =
      reorder_within_column-pass o laws card.column_id card.position new db keyed.cards apart
      ∙ ap₂
          (λ a b. (
            ok tt,
            record db { cards = map (reposition card.column_id (shift_between a b)) db.cards },
          ))
          (clamp-InRange _ card.position (dense.in_range card here (==_refl card.column_id)))
          (clamp-InRange _ new range)

  place-moved :
      place o card (move_to new) new db
      ≡ (ok tt, record db { cards = map (moved card new) db.cards })
  unfolding place
  place-moved =
      let same_column : (card.column_id == card.column_id) ≡ true = ==_refl card.column_id in
      elim (Bool-cases (eqb_ℤ card.position new)) [
        | inl p ↦
            let e : card.position ≡ new = (eqb_ℤ_iff card.position new).0 p in
            let kept = reposition_id card.column_id _ db.cards (shift_between_self card.position) in
            rw (same_column, p) (update_card-moved db.cards (rw (← e) (sym kept)))
        | inr p ↦
            rw (same_column, p)
              (>>=-ok (reorder_within_column o card.column_id card.position new)
                  (λ _. update_card o card.id (λ c. record c { position = new })) db
                  (pass-between (λ e. absurd (ground arith)))
                ∙ update_card-moved _ refl)
      ]

  -- A user moves one of their cards to a position in use in its column. The method succeeds and
  -- answers with the card at that position; the table is the old one with the card there and the
  -- cards between the two positions shifted by one; the positions of the column are again 0 … n-1.
  pub update-moved :
      (user_id : ℕ)
      → OwnsCard db user_id card
      → (update o card.id user_id (move_to new) db ≡ (
        ok (record card { position = new }),
        record db { cards = map (moved card new) db.cards },
      ))
        × IsDense card.column_id (map (moved card new) db.cards)
  unfolding update update_steps
  update-moved user_id owns =
      let looked_up = find_card_by_id-owned o laws db user_id card keyed owns in
      let steps : update_steps o card user_id (move_to new) db
          ≡ (ok tt, record db { cards = map (moved card new) db.cards }) =
        >>=-ok (place o card (move_to new) new) (λ _. skip) db place-moved in
      let self : moved card new card ≡ record card { position = new } = rw (==_refl card.id) in
      let found =
        find_one-Member Card.id o.cards laws.cards (moved card new card)
          (map (moved card new) db.cards)
          (Distinct-map Card.id (moved card new) db.cards (moved-id card new) keyed.cards)
          (Member-map (moved card new) card db.cards here) in
      (
        ground (
          arith,
          looked_up,
          transaction-ok o (update_steps o card user_id (move_to new)) db steps,
          found,
          self,
          moved-id card new card,
        ),
        moved-IsDense card new db.cards dense here range,
      )

module _ (o : Orm) (laws : IsLawful o) (card : Card) (new : ℤ) (db : Db) (keyed : IsKeyed db)
    (dense : IsDense card.column_id db.cards)
    (beyond : ¬ InRange (count_in card.column_id db.cards) new) where
  abbrev shifted : List Card
  shifted =
      map
        (reposition card.column_id (
          shift_between (clamp (last_position o laws card.column_id db) card.position)
            (clamp (last_position o laws card.column_id db) new)))
        db.cards

  abbrev placed : Card → Card
  placed c = if c.id == card.id then record c { position = new } else c

  place-beyond :
      card.position ≢ new
      → place o card (move_to new) new db ≡ (ok tt, record db { cards = map placed shifted })
  unfolding place
  place-beyond apart =
      let same_column : (card.column_id == card.column_id) ≡ true = ==_refl card.column_id in
      let distinct : eqb_ℤ card.position new ≡ false = ground arith in
      rw (same_column, distinct)
        (>>=-ok (reorder_within_column o card.column_id card.position new)
            (λ _. update_card o card.id (λ c. record c { position = new })) db
            (reorder_within_column-pass o laws card.column_id card.position new db keyed.cards
              apart)
          ∙ ap (λ t. (ok tt, record db { cards = t }))
              (laws.new_cards.update_lem card.id (λ c. record c { position = new }) shifted))

  abbrev shift : ℤ → ℤ
  shift =
      shift_between (clamp (last_position o laws card.column_id db) card.position)
        (clamp (last_position o laws card.column_id db) new)

  abbrev placed_row : Card → Card
  placed_row c = placed (reposition card.column_id shift c)

  placed_row-in_column :
      (c : Card) → in_column card.column_id (placed_row c) ≡ in_column card.column_id c
  placed_row-in_column c = ground arith

  update-beyond :
      (user_id : ℕ)
      → OwnsCard db user_id card
      → card.position ≢ new
      → (update o card.id user_id (move_to new) db).1
        ≡ record db { cards = map placed_row db.cards }
  unfolding update update_steps
  update-beyond user_id owns apart =
      let looked_up = find_card_by_id-owned o laws db user_id card keyed owns in
      let steps : update_steps o card user_id (move_to new) db
          ≡ (ok tt, record db { cards = map placed shifted }) =
        >>=-ok (place o card (move_to new) new) (λ _. skip) db (place-beyond apart) in
      let one = map-map (reposition card.column_id shift) placed db.cards in
      ground (
        arith,
        looked_up,
        transaction-ok o (update_steps o card user_id (move_to new)) db steps,
        one,
      )

  -- A position that no card of the column has is stored as it was sent, while the other cards are
  -- shifted as for the nearest position in use: the positions of the column are then not 0 … n-1.
  pub update-gap :
      (user_id : ℕ)
      → OwnsCard db user_id card
      → ¬ IsDense card.column_id (Db.cards (update o card.id user_id (move_to new) db).1)
  update-gap user_id owns gap =
      let r = dense.in_range card owns.card_in (==_refl card.column_id) in
      let apart : card.position ≢ new = λ e. beyond (rw (← e) r) in
      let after = update-beyond user_id owns apart in
      let kept : IsDense card.column_id (map placed_row db.cards) =
        subst (λ d. IsDense card.column_id (Db.cards d)) after gap in
      let there = Member-map placed_row card db.cards owns.card_in in
      let at_new : Card.position (placed_row card) ≡ new = ground (arith, ==_refl card.id) in
      let n =
        length-select-map (in_column card.column_id) placed_row db.cards placed_row-in_column in
      let bound =
        kept.in_range (placed_row card) there
          (placed_row-in_column card ∙ ==_refl card.column_id) in
      beyond (subst₂ InRange n at_new bound)
