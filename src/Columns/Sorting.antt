-- ===== src/Columns/Sorting.antt =====
-- `sortCards`: the positions that it writes.
use mathlib.Core.List.Permᴰ
use kan_pad.Base.{
  ℕ, ◌+◌, map-cong, length-select-map, ap, ◌∙◌, sym, ◌≡◌, refl, inl, inr, true, false, List, map,
  arith, any, Member, map-Member, Member-Permᴰ, Member-select, Bool-cases, length-Permᴰ, ◌==◌,
  ==_iff, if◌then◌else◌,
}
use kan_pad.Base.Int.{pos, ◌≤ℤ◌}
use kan_pad.Cards.Dense.{IsDense}
use kan_pad.Cards.Passes.{in_column}
use kan_pad.Cards.Ownership.{OwnsColumn}
use kan_pad.Columns.MoveAll.{find_one_by_id-owned}
use kan_pad.Columns.View.{ColumnView}
use kan_pad.Store.Keyed.{IsKeyed, find_one-Member}
use kan_pad.Columns.Numbering.{
  any-number, Distinct-number, index_of, index_of-lt, number_from-Member, index_of-injective,
  index_of-Before,
}
use kan_pad.Columns.Moves.{save_cards-save_all}
use kan_pad.Columns.Service.{number_from, save_cards, sort_cards}
use kan_pad.Store.Action.{ok, Result-cases}
use kan_pad.Store.Distinct.{
  any-Member, Member-any, Distinct-unique, Distinct, same_id, any-same, any-selected,
  Distinct-select, Distinct-Permᴰ,
}
use kan_pad.Store.Entities.{Card, BoardColumn, Db}
use kan_pad.Store.Laws.{IsLawful}
use kan_pad.Store.Repository.{Orm, Order}
use kan_pad.Store.Repository.Documented.{Before}
use kan_pad.Store.SaveAll.{latest, save_all-latest, latest-Member, latest_new}

module _ (o : Orm) (laws : IsLawful o) (db : Db) (distinct : Distinct Card.id db.cards)
    (column_id : ℕ) (order : Order) where
  -- the cards of the column by the time of their creation
  abbrev pub by_creation : List Card
  by_creation =
      o.cards.find_ordered order (λ c. pos (Card.created_at c)) (λ c. Card.column_id c == column_id)
        db.cards

  abbrev pub sorted_row : Card → Card
  sorted_row c =
      if c.column_id == column_id
      then record c { position = pos (index_of c.id by_creation) }
      else c

  listed :
      (c : Card)
      → Member c db.cards
      → any (same_id Card.id c) by_creation ≡ (c.column_id == column_id)
  listed c m =
      any-selected Card.id (λ c. Card.column_id c == column_id) by_creation db.cards distinct
        (laws.cards.find_ordered-Permᴰ order _ _ db.cards) c m

  listed-Distinct : Distinct Card.id by_creation
  listed-Distinct =
      Distinct-Permᴰ Card.id (Permᴰ.symm (laws.cards.find_ordered-Permᴰ order _ _ db.cards))
        (Distinct-select Card.id _ db.cards distinct)

  listed-Member : (c : Card) → Member c by_creation → Member c db.cards
  listed-Member c m =
      (Member-select (λ c. Card.column_id c == column_id) c db.cards
        (Member-Permᴰ c (laws.cards.find_ordered-Permᴰ order _ _ db.cards) m)).0

  numbered-known :
      (c : Card) → Member c (number_from 0 by_creation) → any (same_id Card.id c) db.cards ≡ true
  numbered-known c m =
      let (x, mx, e) =
        Member-any Card.id c by_creation (
          sym (any-number c.id 0 by_creation) ∙ any-same Card.id c (number_from 0 by_creation) m) in
      any-Member (same_id Card.id c) x db.cards (listed-Member x mx) ((==_iff _ _).1 e)

  sorted_row-latest :
      (c : Card) → Member c db.cards → latest Card.id (number_from 0 by_creation) c ≡ sorted_row c
  sorted_row-latest c m = elim (Bool-cases (c.column_id == column_id)) [
    | inl h ↦
        let (x, mx, e) = Member-any Card.id c by_creation (listed c m ∙ h) in
        let same : c ≡ x = Distinct-unique Card.id c x db.cards distinct m (listed-Member x mx) e in
        let there = number_from-Member 0 c by_creation (rw same mx) listed-Distinct in
        let start : 0 + index_of c.id by_creation ≡ index_of c.id by_creation = omega arith in
        let place = rw start at there in
        rw h (
          latest-Member Card.id (record c { position = pos (index_of c.id by_creation) }) c
            (number_from 0 by_creation) (Distinct-number 0 by_creation listed-Distinct) place refl)
    | inr h ↦ rw h (
        latest_new Card.id c (number_from 0 by_creation)
          (any-number c.id 0 by_creation ∙ listed c m ∙ h))
  ]

  save_numbered :
      save_cards o (number_from 0 by_creation) db
      ≡ (ok tt, record db { cards = map sorted_row db.cards })
  save_numbered =
      save_cards-save_all o (number_from 0 by_creation) db
      ∙ ap (λ t. (ok tt, record db { cards = t }))
          (save_all-latest Card.id o.cards laws.cards (number_from 0 by_creation) db.cards
              (Distinct-number 0 by_creation listed-Distinct) numbered-known
            ∙ map-cong _ _ db.cards sorted_row-latest)

  in_column_of : (c : Card) → in_column column_id (sorted_row c) ≡ in_column column_id c
  in_column_of c = ground arith

  place_of :
      (c : Card)
      → in_column column_id (sorted_row c) ≡ true
      → (in_column column_id c ≡ true)
        × (Card.position (sorted_row c) ≡ pos (index_of c.id by_creation))
  place_of c h = let here = sym (in_column_of c) ∙ h in (here, rw here refl)

  sorted-IsDense : IsDense column_id (map sorted_row db.cards)
  sorted-IsDense = record {
    in_range = λ c m h.
        let (x, mx, e) = map-Member sorted_row c db.cards m in
        let (hx, p) = place_of x (rw (← e) h) in
        let n = length-Permᴰ (
          laws.cards.find_ordered-Permᴰ order (λ c. pos (Card.created_at c))
            (λ c. Card.column_id c == column_id) db.cards) in
        let k = length-select-map (in_column column_id) sorted_row db.cards in_column_of in
        let below = index_of-lt x by_creation (listed x mx ∙ hx) in
        rw (e, p) (omega arith, omega arith);
    once = λ c d mc md hc hd same.
        let (x, mx, e) = map-Member sorted_row c db.cards mc in
        let (y, my, f) = map-Member sorted_row d db.cards md in
        let (hx, p) = place_of x (rw (← e) hc) in
        let (hy, q) = place_of y (rw (← f) hd) in
        let index =
          index_of-injective x y by_creation (listed x mx ∙ hx) (listed y my ∙ hy) (ground arith) in
        ground arith;
  }

  sorted_order :
      (c d : Card)
      → Member c db.cards
      → Member d db.cards
      → in_column column_id c ≡ true
      → in_column column_id d ≡ true
      → Card.position (sorted_row c) ≤ℤ Card.position (sorted_row d)
      → Before order (λ k. pos (Card.created_at k)) c d
  sorted_order c d mc md hc hd h =
      let (x, mx, ex) = Member-any Card.id c by_creation (listed c mc ∙ hc) in
      let (y, my, ey) = Member-any Card.id d by_creation (listed d md ∙ hd) in
      let same_c : c ≡ x =
        Distinct-unique Card.id c x db.cards distinct mc (listed-Member x mx) ex in
      let same_d : d ≡ y =
        Distinct-unique Card.id d y db.cards distinct md (listed-Member y my) ey in
      index_of-Before order (λ k. pos (Card.created_at k)) c d by_creation listed-Distinct
        (laws.cards.find_ordered-IsOrdered order _ _ db.cards) (rw same_c mx) (rw same_d my)
        (ground (arith, hc, hd))

-- What `sortCards` leaves in a table of cards: the cards of other columns as they were, those of the
-- column unchanged but for positions, which are 0 … n-1 in the order of creation.
pub record IsSorted (order : Order) (column_id : ℕ) (place : Card → Card) (t : List Card)
    : Type 0 where
  pub others : (c : Card) → in_column column_id c ≡ false → place c ≡ c
  pub row : (c : Card) → place c ≡ record c { position = Card.position (place c) }
  pub dense : IsDense column_id (map place t)
  pub ordered :
      (c d : Card)
      → Member c t
      → Member d t
      → in_column column_id c ≡ true
      → in_column column_id d ≡ true
      → Card.position (place c) ≤ℤ Card.position (place d)
      → Before order (λ k. pos (Card.created_at k)) c d

module _ (o : Orm) (laws : IsLawful o) (db : Db) (keyed : IsKeyed db) where
  -- The owner of a column sorts it: `sortCards` succeeds and gives each card its place among those of
  -- the column, as IsSorted says; nothing but the cards changes.
  pub sort_cards-IsSorted :
      (user_id : ℕ) (column : BoardColumn) (order : Order)
      → OwnsColumn db user_id column
      → (place : Card → Card) × IsSorted order column.id place db.cards
        × (view : ColumnView) × (sort_cards o column.id user_id order db
            ≡ (ok view, record db { cards = map place db.cards }))
  unfolding sort_cards
  sort_cards-IsSorted user_id column order owns =
      let looked_up = find_one_by_id-owned o laws db keyed user_id column owns in
      let saved = save_numbered o laws db keyed.cards column.id order in
      let found =
        find_one-Member BoardColumn.id o.columns laws.columns column db.columns keyed.columns
          owns.column_in in
      let (view, run) : (view : ColumnView) × (sort_cards o column.id user_id order db ≡ (
        ok view,
        record db { cards = map (sorted_row o laws db keyed.cards column.id order) db.cards },
      )) =
        elim (Result-cases (sort_cards o column.id user_id order db).0) [
          | inl (e, r) ↦ absurd (ground (arith, looked_up, saved, found))
          | inr (view, r) ↦
              let left : (sort_cards o column.id user_id order db).1 ≡ record db {
                cards = map (sorted_row o laws db keyed.cards column.id order) db.cards;
              } =
                ground (arith, looked_up, saved, found) in
              (view, λ i. (r i, left i))
        ] in
      (
        sorted_row o laws db keyed.cards column.id order,
        record {
          others = λ c h. rw h refl;
          row = λ c. ground arith;
          dense = sorted-IsDense o laws db keyed.cards column.id order;
          ordered = sorted_order o laws db keyed.cards column.id order;
        },
        view,
        run,
      )
