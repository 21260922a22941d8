-- ===== src/Checklists/Items.antt =====
-- `createItem`: who may add an item, and where it goes.
use kan_pad.Base.{
  ℕ, ◌≡◌, refl, inl, inr, Bool, false, [], ◌∷◌, ◌++◌, none, get_or, Member, arith, Option-cases,
  ◌==◌, ==_iff,
}
use kan_pad.Base.Int.{ℤ, pos, negsuc, ◌+ℤ◌, ◌≤ℤ◌, ◌<ℤ◌, int_laws}
use kan_pad.Cards.Ownership.{OwnsCard}
use kan_pad.Checklists.{CreateChecklistItemDto, find_checklist_by_id, create_item}
use kan_pad.Store.Action.{ok}
use kan_pad.Store.Entities.{Board, BoardColumn, Card, Checklist, ChecklistItem, Db}
use kan_pad.Store.Keyed.{IsKeyed, find_one-Member}
use kan_pad.Store.Laws.{IsLawful}
use kan_pad.Store.Repository.{Orm, Generated}

module _ (o : Orm) (laws : IsLawful o) (db : Db) (keyed : IsKeyed db) (checklist : Checklist)
    (here : Member checklist db.checklists) (card : Card) (on_card : card.id ≡ checklist.card_id)
    (user_id : ℕ) (owns : OwnsCard db user_id card) where
  find_checklist_by_id-owned : find_checklist_by_id o checklist.id user_id db ≡ (ok checklist, db)
  unfolding find_checklist_by_id
  find_checklist_by_id-owned =
      let above = owns.owns in
      let l =
        find_one-Member Checklist.id o.checklists laws.checklists checklist db.checklists
          keyed.checklists here in
      let a = find_one-Member Card.id o.cards laws.cards card db.cards keyed.cards owns.card_in in
      let c =
        find_one-Member BoardColumn.id o.columns laws.columns owns.column db.columns keyed.columns
          above.column_in in
      let b =
        find_one-Member Board.id o.boards laws.boards above.board db.boards keyed.boards
          above.board_in in
      ground (arith, l, a, c, b, on_card, owns.column_is, above.board_is, above.owner_is)

  abbrev of_checklist : ChecklistItem → Bool
  of_checklist i = i.checklist_id == checklist.id

  abbrev last_position : ℤ
  last_position =
      get_or (o.checklist_items.max ChecklistItem.position of_checklist db.checklist_items)
        (negsuc 0)

  below_last :
      (i : ChecklistItem)
      → Member i db.checklist_items
      → i.checklist_id ≡ checklist.id
      → i.position ≤ℤ last_position
  below_last i m h =
      elim (Option-cases
        (o.checklist_items.max ChecklistItem.position of_checklist db.checklist_items)) [
          | inl e ↦
              let missing =
                laws.checklist_items.max-none ChecklistItem.position of_checklist db.checklist_items
                  i e m in
              absurd (ground (arith, h))
          | inr (k, e) ↦ rw e (
              laws.checklist_items.max-some ChecklistItem.position of_checklist db.checklist_items k
                i e m ((==_iff _ _).1 h))
        ]

  -- The owner of a checklist adds an item without a position: `createItem` succeeds, and the item, not
  -- completed, stands behind each item that the checklist had.
  pub create_item_last :
      (dto : CreateChecklistItemDto)
      → dto.position ≡ none
      → (item : ChecklistItem) × (create_item o checklist.id user_id dto db
          ≡ (ok item, record db { checklist_items = db.checklist_items ++ item ∷ [] }))
        × (item.checklist_id ≡ checklist.id)
        × (item.text ≡ dto.text)
        × (item.is_completed ≡ false)
        × ((i : ChecklistItem)
            → Member i db.checklist_items
            → i.checklist_id ≡ checklist.id
            → i.position <ℤ item.position)
  unfolding create_item
  create_item_last dto unset =
      let made : Generated → ChecklistItem = λ g. record {
        id = g.id;
        text = dto.text;
        is_completed = false;
        checklist_id = checklist.id;
        position = last_position +ℤ pos 1;
      } in
      let (g, inserted, _, _) = laws.new_checklist_items.insert_lem made db.checklist_items in
      (
        made g,
        ground (arith, find_checklist_by_id-owned, unset, inserted),
        refl,
        refl,
        refl,
        λ i m h. omega (int_laws, below_last i m h),
      )
