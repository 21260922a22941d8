-- ===== src/Cards/Creation.antt =====
-- `create`: where a new card goes.
use kan_pad.Base.{
  ℕ, ◌+◌, ap, ◌∙◌, sym, ◌≡◌, refl, inl, inr, true, none, List, [], ◌∷◌, ◌++◌, Member-snoc, arith,
  length, length-append, select, select-append,
}
use kan_pad.Base.Int.{pos, ◌+ℤ◌, ◌-ℤ◌, eq_of_parts, int_laws, lt_irrefl}
use kan_pad.Cards.Access.{to_date}
use kan_pad.Cards.Dense.{IsDense, count_in}
use kan_pad.Cards.Full.{get_max_position-dense}
use kan_pad.Cards.Ownership.{OwnsColumn, find_column_by_id-owned}
use kan_pad.Cards.Passes.{in_column}
use kan_pad.Cards.Service.{CreateCardDto, create}
use kan_pad.Store.Action.{ok}
use kan_pad.Store.Entities.{BoardColumn, Card, Db}
use kan_pad.Store.Keyed.{IsKeyed}
use kan_pad.Store.Laws.{IsLawful}
use kan_pad.Store.Repository.{Orm}

module _ (column_id : ℕ) (card : Card) (t : List Card) where
  -- A card that is put behind n others.
  append-IsDense :
      IsDense column_id t
      → in_column column_id card ≡ true
      → card.position ≡ pos (count_in column_id t)
      → IsDense column_id (t ++ card ∷ [])
  append-IsDense dense here last =
      let n : count_in column_id (t ++ card ∷ []) ≡ count_in column_id t + 1 =
        ap length (select-append (in_column column_id) t (card ∷ []))
        ∙ length-append (select (in_column column_id) t) (select (in_column column_id) (card ∷ []))
        ∙ rw here refl in
      record {
        in_range = λ c m h. elim (Member-snoc c card t m) [
          | inl mc ↦ let r = dense.in_range c mc h in rw n (omega (arith, r), omega (arith, r))
          | inr e ↦
              let at_last : c.position ≡ pos (count_in column_id t) = ap Card.position e ∙ last in
              rw n (rw at_last (omega arith), rw at_last (omega arith))
        ];
        once = λ c d mc md hc hd e. elim (Member-snoc c card t mc) [
          | inl nc ↦ elim (Member-snoc d card t md) [
            | inl nd ↦ dense.once c d nc nd hc hd e
            | inr q ↦
                let r = dense.in_range c nc hc in
                absurd (lt_irrefl (e ∙ ap Card.position q ∙ last) r.1)
          ]
          | inr p ↦ elim (Member-snoc d card t md) [
            | inl nd ↦
                let r = dense.in_range d nd hd in
                absurd (lt_irrefl (sym e ∙ ap Card.position p ∙ last) r.1)
            | inr q ↦ ap Card.id (p ∙ sym q)
          ]
        ];
      }

module _ (o : Orm) (laws : IsLawful o) (db : Db) (keyed : IsKeyed db) (column : BoardColumn)
    (dense : IsDense column.id db.cards) where
  -- A user creates a card in one of their columns and gives it no position: `create` succeeds, and the
  -- card goes behind the cards of the column. If the positions of the column were 0 … n-1, they are
  -- now 0 … n.
  pub create_last :
      (user_id : ℕ) (dto : CreateCardDto)
      → OwnsColumn db user_id column
      → dto.column_id ≡ column.id
      → dto.position ≡ none
      → (card : Card) × (create o user_id dto db
          ≡ (ok card, record db { cards = db.cards ++ card ∷ [] }))
        × (card.column_id ≡ column.id)
        × (card.title ≡ dto.title)
        × (card.position ≡ pos (count_in column.id db.cards))
        × IsDense column.id (db.cards ++ card ∷ [])
  unfolding create
  create_last user_id dto owns target unset =
      let looked_up = find_column_by_id-owned o laws db user_id column keyed owns in
      let last = get_max_position-dense o laws db keyed.cards column.id dense in
      let next : pos (count_in column.id db.cards) -ℤ pos 1 +ℤ pos 1
          ≡ pos (count_in column.id db.cards) =
        eq_of_parts _ _ (omega int_laws) in
      let (g, inserted, _, _) =
        laws.new_cards.insert_lem
          (λ g. record {
            id = g.id;
            title = dto.title;
            column_id = dto.column_id;
            position = pos (count_in column.id db.cards) -ℤ pos 1 +ℤ pos 1;
            description = dto.description;
            due_date = to_date o dto.due_date;
            created_at = g.created_at;
          })
          db.cards in
      let card : Card = record {
        id = g.id;
        title = dto.title;
        column_id = dto.column_id;
        position = pos (count_in column.id db.cards) -ℤ pos 1 +ℤ pos 1;
        description = dto.description;
        due_date = to_date o dto.due_date;
        created_at = g.created_at;
      } in
      (
        card,
        ground (arith, looked_up, last, inserted, target, unset),
        target,
        refl,
        next,
        append-IsDense column.id card db.cards dense (ground arith) next,
      )
