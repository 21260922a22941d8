-- ===== src/Cards/Passes.antt =====
-- The loops of Order as passes over the table: what `reorderWithinColumn`, `removeFromColumn` and
-- `insertIntoColumn` leave in it.
use kan_pad.Base.{
  ℕ, ◌≡◌, refl, ap, ◌∙◌, ap₂, inl, inr, Bool, false, ◌&&◌, ◌||◌, List, [], ◌∷◌, map, arith, length,
  ◌≢◌, length-Permᴰ, select, map-cong, Bool-cases, ◌==◌, if◌then◌else◌,
}
use kan_pad.Base.Int.{ℤ, pos, ◌+ℤ◌, ◌-ℤ◌, ltb_ℤ, leb_ℤ, eqb_ℤ, eqb_ℤ_iff}
use kan_pad.Cards.Access.{save_card}
use kan_pad.Cards.Order.{
  clamp, reorder_step, reorder_cards, reorder_within_column, remove_step, remove_from_column,
  insert_step, insert_into_column,
}
use kan_pad.Store.Action.{Action, ok, when, for_each}
use kan_pad.Store.Bulk.{save_each, save_each-select, pass}
use kan_pad.Store.Distinct.{Distinct}
use kan_pad.Store.Entities.{Card, Db}
use kan_pad.Store.Laws.{IsLawful}
use kan_pad.Store.Repository.{Orm, asc}

-- where a card at `p` goes when the card at `old` moves to `new`
unfoldable pub shift_between : ℤ → ℤ → ℤ → ℤ
shift_between old new p =
    if ltb_ℤ old new && ltb_ℤ old p && leb_ℤ p new
    then p -ℤ pos 1
    else if ltb_ℤ new old && leb_ℤ new p && ltb_ℤ p old
    then p +ℤ pos 1
    else p

unfoldable pub shift_down : ℤ → ℤ → ℤ
shift_down position p = if ltb_ℤ position p then p -ℤ pos 1 else p

unfoldable pub shift_up : ℤ → ℤ → ℤ
shift_up position p = if leb_ℤ position p then p +ℤ pos 1 else p

-- One pass: the positions of a column's cards, changed by a function.
abbrev pub in_column : ℕ → Card → Bool
in_column column_id c = c.column_id == column_id

abbrev pub reposition : ℕ → (ℤ → ℤ) → Card → Card
reposition column_id shift c =
    if in_column column_id c then record c { position = shift c.position } else c

-- A pass that changes no position changes nothing.
pub reposition_id :
    (column_id : ℕ) (shift : ℤ → ℤ) (t : List Card)
    → ((p : ℤ) → shift p ≡ p)
    → map (reposition column_id shift) t ≡ t
reposition_id column_id shift [] h = refl
reposition_id column_id shift (c ∷ cs) h =
    ap₂ ◌∷◌ (ground (arith, h c.position)) (reposition_id column_id shift cs h)

pub shift_between_self : (a p : ℤ) → shift_between a a p ≡ p
unfolding shift_between
shift_between_self a p = ground arith

module _ (o : Orm) (laws : IsLawful o) where
  for_each-save :
      (test : Card → Bool) (change : Card → Card) (body : Card → Action (Unit {0}))
      → ((c : Card) → body c ≡ when (test c) (save_card o (change c)))
      → (xs : List Card) (db : Db)
      → for_each xs body db
        ≡ (ok tt, record db { cards = save_each o.cards test change xs db.cards })
  unfolding for_each save_each
  for_each-save test change body h [] db = refl
  for_each-save test change body h (c ∷ cs) db = elim (Bool-cases (test c)) [
    | inl p ↦
        rw (h c, p)
          (for_each-save test change body h cs
            (record db { cards = o.cards.save (change c) db.cards }))
    | inr p ↦ rw (h c, p) (for_each-save test change body h cs db)
  ]

  -- the loop over a column's cards, by the pass that it makes
  loop-pass :
      (column_id : ℕ) (test : Card → Bool) (change : Card → Card) (body : Card → Action (Unit {0}))
      (shift : ℤ → ℤ) (db : Db)
      → ((c : Card) → body c ≡ when (test c) (save_card o (change c)))
      → ((c : Card) → Card.id (change c) ≡ c.id)
      → ((c : Card) → pass test change (in_column column_id) c ≡ reposition column_id shift c)
      → Distinct Card.id db.cards
      → for_each (o.cards.find_ordered asc Card.position (in_column column_id) db.cards) body db
        ≡ (ok tt, record db { cards = map (reposition column_id shift) db.cards })
  loop-pass column_id test change body shift db step keeps same d =
      let cards = o.cards.find_ordered asc Card.position (in_column column_id) db.cards in
      let passed : save_each o.cards test change cards db.cards
          ≡ map (reposition column_id shift) db.cards =
        save_each-select Card.id o.cards laws.cards test change keeps (in_column column_id) cards
          db.cards d
          (laws.cards.find_ordered-Permᴰ asc Card.position (in_column column_id) db.cards)
        ∙ map-cong _ _ db.cards (λ c m. same c) in
      for_each-save test change body step cards db
      ∙ ap (λ t. (ok tt, record db { cards = t })) passed

  -- `removeFromColumn` closes the gap at the position, in that column alone.
  pub remove_from_column-pass :
      (column_id : ℕ) (position : ℤ) (db : Db)
      → Distinct Card.id db.cards
      → remove_from_column o column_id position db
        ≡ (ok tt, record db { cards = map (reposition column_id (shift_down position)) db.cards })
  unfolding remove_from_column shift_down
  remove_from_column-pass column_id position db d =
      loop-pass column_id (λ c. ltb_ℤ position c.position)
        (λ c. record c { position = c.position -ℤ pos 1 }) (remove_step o position)
        (shift_down position) db (λ c. refl) (λ c. refl) (λ c. ground arith) d

  -- `insertIntoColumn` makes room at the position, in that column alone.
  pub insert_into_column-pass :
      (column_id : ℕ) (position : ℤ) (db : Db)
      → Distinct Card.id db.cards
      → insert_into_column o column_id position db
        ≡ (ok tt, record db { cards = map (reposition column_id (shift_up position)) db.cards })
  unfolding insert_into_column shift_up
  insert_into_column-pass column_id position db d =
      loop-pass column_id (λ c. leb_ℤ position c.position)
        (λ c. record c { position = c.position +ℤ pos 1 }) (insert_step o position)
        (shift_up position) db (λ c. refl) (λ c. refl) (λ c. ground arith) d

  abbrev pub last_position : ℕ → Db → ℤ
  last_position column_id db = pos (length (select (in_column column_id) db.cards)) -ℤ pos 1

  -- the two tests of a step of `reorderWithinColumn`
  abbrev moves_down : ℤ → ℤ → ℤ → Bool
  moves_down old new p = ltb_ℤ old new && ltb_ℤ old p && leb_ℤ p new

  abbrev moves_up : ℤ → ℤ → ℤ → Bool
  moves_up old new p = ltb_ℤ new old && leb_ℤ new p && ltb_ℤ p old

  reorder_loop-pass :
      (column_id : ℕ) (old new : ℤ) (db : Db)
      → Distinct Card.id db.cards
      → for_each
          (o.cards.find_ordered asc Card.position (in_column column_id) db.cards)
          (reorder_step o old new)
          db
        ≡ (ok tt, record db { cards = map (reposition column_id (shift_between old new)) db.cards })
  unfolding reorder_step shift_between
  reorder_loop-pass column_id old new db d =
      loop-pass column_id (λ c. moves_down old new c.position || moves_up old new c.position)
        (λ c. record c { position = shift_between old new c.position }) (reorder_step o old new)
        (shift_between old new) db
        (λ c. elim (Bool-cases (moves_down old new c.position)) [
          | inl p ↦ rw p
          | inr p ↦ elim (Bool-cases (moves_up old new c.position)) [
            | inl q ↦ rw (p, q)
            | inr q ↦ rw (p, q)
          ]
        ])
        (λ c. refl) (λ c. ground arith) d

  reorder_cards-pass :
      (column_id : ℕ) (old new : ℤ) (db : Db)
      → Distinct Card.id db.cards
      → reorder_cards o
          (o.cards.find_ordered asc Card.position (in_column column_id) db.cards)
          old
          new
          db
        ≡ (ok tt, record db { cards = map (reposition column_id (shift_between old new)) db.cards })
  unfolding reorder_cards
  reorder_cards-pass column_id old new db d = elim (Bool-cases (eqb_ℤ old new)) [
    | inl p ↦
        let e : old ≡ new = (eqb_ℤ_iff old new).0 p in
        let kept : map (reposition column_id (shift_between old new)) db.cards ≡ db.cards =
          rw e (reposition_id column_id _ db.cards (shift_between_self new)) in
        rw (p, kept)
    | inr p ↦ rw p (reorder_loop-pass column_id old new db d)
  ]

  length-cards_in_column :
      (column_id : ℕ) (db : Db)
      → length (o.cards.find_ordered asc Card.position (in_column column_id) db.cards)
        ≡ length (select (in_column column_id) db.cards)
  length-cards_in_column column_id db =
      length-Permᴰ (laws.cards.find_ordered-Permᴰ asc Card.position (in_column column_id) db.cards)

  -- `reorderWithinColumn` shifts the cards between the two positions, both clamped to those in use.
  pub reorder_within_column-pass :
      (column_id : ℕ) (old new : ℤ) (db : Db)
      → Distinct Card.id db.cards
      → old ≢ new
      → reorder_within_column o column_id old new db ≡ (
        ok tt,
        record db {
          cards =
              map
                (reposition column_id (
                  shift_between
                    (clamp (last_position column_id db) old)
                    (clamp (last_position column_id db) new)))
                db.cards;
        },
      )
  unfolding reorder_within_column
  reorder_within_column-pass column_id old new db d ne =
      let apart : eqb_ℤ old new ≡ false = ground arith in
      rw apart (
        reorder_cards-pass column_id _ _ db d
        ∙ ap
            (λ n. (
              ok tt,
              record db {
                cards =
                    map
                      (reposition column_id
                        (shift_between (clamp (pos n -ℤ pos 1) old) (clamp (pos n -ℤ pos 1) new)))
                      db.cards;
              },
            ))
            (length-cards_in_column column_id db))
