-- ===== src/Api/Content/Counted.antt =====
-- The progress of a card: toCardDetailResponse counts it from the loaded checklists, the list from
-- the grouped query of card-summary.helpers.ts.
use mathlib.Core.List.{Permᴰ}
use kan_pad.Base.{
  ℕ, ◌+◌, ap₂, ◌∙◌, sym, ◌≡◌, refl, inl, inr, Bool, false, List, [], ◌∷◌, map, map-Member, length,
  Member, arith, any, select, ltb, ◌==◌, length-append, length-Permᴰ, select-append,
}
use kan_pad.Api.Reading.{find_column_by_id-IsReading}
use kan_pad.Api.Content.{to_card_summary_response, all_items, card_progress, to_card_response}
use kan_pad.Cards.Access.{find_card_by_id, find_column_by_id}
use kan_pad.Cards.Service.{CardDetail, find_by_id, find_all_by_column_id}
use kan_pad.Store.Action.{ok, Result-cases}
use kan_pad.Store.Distinct.{Distinct}
use kan_pad.Store.Entities.{Card, Checklist, ChecklistItem, Db}
use kan_pad.Store.Laws.{IsLawful}
use kan_pad.Store.Repository.{Orm, asc}
use kan_pad.Summary.{
  summary_row, CardSummary, sum_of, items_in, completed_in, checklists_of, progress_row,
  to_progress, attach_card_list_enrichments,
}
use kan_pad.Summary.Enriched.{progress_of, enriched, attach_card_list_enrichments-enriched}

module _ {A : Type 0} where
  sum_of-Permᴰ : (f : A → ℕ) {xs ys : List A} → Permᴰ xs ys → sum_of f xs ≡ sum_of f ys
  sum_of-Permᴰ f Permᴰ.nil = refl
  sum_of-Permᴰ f (Permᴰ.cons e r) = rw (e, sum_of-Permᴰ f r) refl
  sum_of-Permᴰ f (Permᴰ.swap e g) = ground arith
  sum_of-Permᴰ f (Permᴰ.trans r s) = sum_of-Permᴰ f r ∙ sum_of-Permᴰ f s

  select-Permᴰ :
      (p : A → Bool) {xs ys : List A} → Permᴰ xs ys → length (select p xs) ≡ length (select p ys)
  select-Permᴰ p Permᴰ.nil = refl
  select-Permᴰ p (Permᴰ.cons e r) = ground (arith, e, select-Permᴰ p r)
  select-Permᴰ p (Permᴰ.swap e g) = ground arith
  select-Permᴰ p (Permᴰ.trans r s) = select-Permᴰ p r ∙ select-Permᴰ p s

  any-length : (p : A → Bool) (t : List A) → any p t ≡ ltb 0 (length (select p t))
  any-length p [] = refl
  any-length p (x ∷ t) = ground (arith, any-length p t)

  nonzero_sum : (f : A → ℕ) (xs : List A) → ltb 0 (length xs) ≡ false → sum_of f xs ≡ 0
  nonzero_sum f [] h = refl
  nonzero_sum f (x ∷ xs) h = ground arith

module _ (o : Orm) (laws : IsLawful o) (db : Db) where
  abbrev items_found : Checklist → List ChecklistItem
  items_found l =
      o.checklist_items.find (λ i. ChecklistItem.checklist_id i == Checklist.id l)
        db.checklist_items

  abbrev loaded : List Checklist → List (Checklist × List ChecklistItem)
  loaded = map (λ l. (l, items_found l))

  length-all_items :
      (ls : List Checklist)
      → length (all_items (loaded ls)) ≡ sum_of (λ l. length (items_in db l)) ls
  unfolding all_items items_in
  length-all_items [] = refl
  length-all_items (l ∷ ls) =
      length-append (items_found l) (all_items (loaded ls))
      ∙ ap₂ (λ a b. a + b) (length-Permᴰ (laws.checklist_items.find-Permᴰ _ db.checklist_items))
          (length-all_items ls)

  completed-all_items :
      (ls : List Checklist)
      → length (select ChecklistItem.is_completed (all_items (loaded ls)))
        ≡ sum_of (completed_in db) ls
  unfolding all_items items_in
  completed-all_items [] = refl
  completed-all_items (l ∷ ls) =
      rw (select-append ChecklistItem.is_completed (items_found l) (all_items (loaded ls))) (
        length-append (select ChecklistItem.is_completed (items_found l))
          (select ChecklistItem.is_completed (all_items (loaded ls))))
      ∙ ap₂ (λ a b. a + b)
          (select-Permᴰ ChecklistItem.is_completed
            (laws.checklist_items.find-Permᴰ _ db.checklist_items))
          (completed-all_items ls)

  length-loaded : (ls : List Checklist) → length (loaded ls) ≡ length ls
  length-loaded [] = refl
  length-loaded (l ∷ ls) = ground (arith, length-loaded ls)

  abbrev lists_found : ℕ → List Checklist
  lists_found id = o.checklists.find (λ l. Checklist.card_id l == id) db.checklists

  card_progress-loaded : (id : ℕ) → card_progress o (loaded (lists_found id)) ≡ progress_of o db id
  unfolding card_progress progress_row to_progress checklists_of
  card_progress-loaded id =
      let perm = laws.checklists.find-Permᴰ (λ l. Checklist.card_id l == id) db.checklists in
      let total =
        length-all_items (lists_found id) ∙ sum_of-Permᴰ (λ l. length (items_in db l)) perm in
      let completed = completed-all_items (lists_found id) ∙ sum_of-Permᴰ (completed_in db) perm in
      let lists = length-loaded (lists_found id) ∙ length-Permᴰ perm in
      let there = any-length (λ l. Checklist.card_id l == id) db.checklists in
      let empty =
        nonzero_sum (λ l. length (items_in db l))
          (select (λ l. Checklist.card_id l == id) db.checklists) in
      ground (arith, total, completed, lists, there, empty)

  find_card_by_id-reads : (id user_id : ℕ) → (find_card_by_id o id user_id db).1 ≡ db
  unfolding find_card_by_id
  find_card_by_id-reads id user_id = ground arith

  detail-progress :
      (id user_id : ℕ) (d : CardDetail)
      → (find_by_id o id user_id db).0 ≡ ok d
      → (to_card_response o d).checklist_progress ≡ progress_of o db d.card.id
  unfolding find_by_id to_card_response
  detail-progress id user_id d h =
      let reads = find_card_by_id-reads id user_id in
      elim (Result-cases (find_card_by_id o id user_id db).0) [
        | inl (e, r) ↦ absurd (ground (arith, h, r))
        | inr (card, r) ↦
            let loads : d.checklists ≡ loaded (lists_found d.card.id) =
              ground (arith, h, r, reads) in
            rw loads (card_progress-loaded d.card.id)
      ]

  list-progress :
      (column_id user_id : ℕ) (cards : List CardSummary) (c : CardSummary)
      → Distinct Card.id db.cards
      → (find_all_by_column_id o column_id user_id db).0 ≡ ok cards
      → Member c cards
      → c.checklist_progress ≡ progress_of o db c.card.id
  unfolding find_all_by_column_id
  list-progress column_id user_id cards c distinct h m =
      let reads = find_column_by_id-IsReading o column_id user_id db in
      elim (Result-cases (find_column_by_id o column_id user_id db).0) [
        | inl (e, r) ↦ absurd (ground (arith, h, r))
        | inr (column, r) ↦
            let found : List Card =
              o.cards.find_ordered asc Card.position (λ c. Card.column_id c == column_id)
                db.cards in
            let rows : List CardSummary = map (summary_row db) found in
            let listed : cards ≡ attach_card_list_enrichments o db rows =
              ground (arith, h, r, reads) in
            let each = attach_card_list_enrichments-enriched o laws db distinct rows in
            let (row, _, e) = map-Member (enriched o db) c rows (rw (← each, ← listed) m) in
            ground (arith, e)
      ]

  -- Where the cards have different ids, a card has the same progress in the list of its column and
  -- in its detail, whichever user reads them.
  pub detail-list-progress :
      (column_id reader : ℕ) (cards : List CardSummary) (c : CardSummary) (id user_id : ℕ)
      (d : CardDetail)
      → Distinct Card.id db.cards
      → (find_all_by_column_id o column_id reader db).0 ≡ ok cards
      → Member c cards
      → (find_by_id o id user_id db).0 ≡ ok d
      → c.card.id ≡ d.card.id
      → (to_card_summary_response c).checklist_progress ≡ (to_card_response o d).checklist_progress
  unfolding to_card_summary_response
  detail-list-progress column_id reader cards c id user_id d distinct h m g e =
      list-progress column_id reader cards c distinct h m
      ∙ rw e (sym (detail-progress id user_id d g))
