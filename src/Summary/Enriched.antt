-- ===== src/Summary/Enriched.antt =====
-- What the batched queries and maps of card-summary.helpers.ts amount to, card by card.
use mathlib.Core.List.Permᴰ
use kan_pad.Base.{
  ℕ, ap₂, ◌∙◌, ◌≡◌, refl, inl, inr, Bool, true, false, ◌&&◌, Option, none, some, get_or, List, [],
  ◌∷◌, map, map-map, map-cong, Member, arith, any, any-Permᴰ, any-weaken, any-select-weaken, select,
  Bool-cases, ◌==◌, ==_iff, ==_refl, if◌then◌else◌, Member-map,
}
use kan_pad.Base.JsMap.{map_get, map_set, map_get-set}
use kan_pad.Store.Cascade.{is_in}
use kan_pad.Store.Distinct.{any-Member, Distinct, Distinct-select, Distinct-Permᴰ}
use kan_pad.Store.Entities.{Card, Checklist, Db}
use kan_pad.Store.Laws.{IsLawful}
use kan_pad.Store.Repository.{Orm}
use kan_pad.Summary.{
  Progress, CardSummary, description_flag, flag_map, set_flag, card_ids, attach_description_flags,
  progress_row, progress_rows, to_progress, progress_map, set_progress, attach_checklist_progress,
  attach_card_list_enrichments,
}

-- the progress of one card: none without a checklist
abbrev pub progress_of : Orm → Db → ℕ → Option Progress
progress_of o db card_id =
    if any (λ l. Checklist.card_id l == card_id) db.checklists
    then some (to_progress o (progress_row db card_id))
    else none

-- whether the stored description of a card has a character that is not white space
abbrev pub is_described : Orm → Db → ℕ → Bool
is_described o db card_id = any (λ c. (Card.id c == card_id) && description_flag o c) db.cards

abbrev pub enriched : Orm → Db → CardSummary → CardSummary
enriched o db c = record c {
  has_description = is_described o db c.card.id;
  checklist_progress = progress_of o db c.card.id;
}

module _ (o : Orm) (db : Db) where
  progress_map-get :
      (ids : List ℕ) (m : List (ℕ × Progress)) (i : ℕ)
      → map_get (progress_map o (map (progress_row db) ids) m) i
        ≡ (if any (λ j. j == i) ids then some (to_progress o (progress_row db i)) else map_get m i)
  unfolding progress_map progress_row
  progress_map-get [] m i = refl
  progress_map-get (j ∷ js) m i =
      let rest = progress_map-get js (map_set j (to_progress o (progress_row db j)) m) i in
      let set = map_get-set j i (to_progress o (progress_row db j)) m in ground (arith, rest, set)

  any-chosen :
      (p : ℕ → Bool) (ids : List ℕ) (i : ℕ)
      → any (λ j. j == i) (select p ids) ≡ (any (λ j. j == i) ids && p i)
  any-chosen p [] i = refl
  any-chosen p (j ∷ js) i = ground (arith, any-chosen p js i)

  flag_map-get :
      (rows : List Card) (m : List (ℕ × Bool)) (i : ℕ)
      → Distinct Card.id rows
      → get_or (map_get (flag_map o rows m) i) false ≡ (
          if any (λ c. Card.id c == i) rows
          then any (λ c. (Card.id c == i) && description_flag o c) rows
          else get_or (map_get m i) false)
  unfolding flag_map
  flag_map-get [] m i d = refl
  flag_map-get (c ∷ cs) m i d =
      let rest = flag_map-get cs (map_set c.id (description_flag o c) m) i d.1 in
      let set = map_get-set c.id i (description_flag o c) m in
      elim (Bool-cases (c.id == i)) [
        | inl h ↦
            let same : c.id ≡ i = (==_iff _ _).0 h in
            let gone : any (λ k. Card.id k == i) cs ≡ false =
              any-weaken (λ k. c.id == Card.id k) (λ k. Card.id k == i) cs (λ k q. ground arith)
                d.0 in
            let none_flagged : any (λ k. (Card.id k == i) && description_flag o k) cs ≡ false =
              any-weaken (λ k. Card.id k == i) _ cs (λ k q. ground arith) gone in
            ground (arith, rest, set)
        | inr h ↦ ground (arith, rest, set)
      ]

module _ (o : Orm) (laws : IsLawful o) (db : Db) (distinct : Distinct Card.id db.cards) where
  flag_lem :
      (cs : List CardSummary) (c : CardSummary)
      → Member c cs
      → get_or
          (map_get
            (flag_map o (o.cards.find (λ k. is_in (card_ids cs) (Card.id k)) db.cards) [])
            c.card.id)
          false
        ≡ is_described o db c.card.id
  unfolding map_get
  flag_lem cs c m =
      let i = c.card.id in
      let q : Card → Bool = λ k. is_in (card_ids cs) (Card.id k) in
      let rows = o.cards.find q db.cards in
      let perm = laws.cards.find-Permᴰ q db.cards in
      let distinct_rows =
        Distinct-Permᴰ Card.id (Permᴰ.symm perm) (Distinct-select Card.id q db.cards distinct) in
      let got = flag_map-get o db rows [] i distinct_rows in
      let asked : any (λ j. i == j) (card_ids cs) ≡ true =
        any-Member (λ j. i == j) i (card_ids cs)
          (Member-map (λ d. Card.id (CardSummary.card d)) c cs m) (==_refl i) in
      let all_rows =
        any-Permᴰ (λ k. Card.id k == i) perm
        ∙ any-select-weaken (λ k. Card.id k == i) q db.cards (λ k h. rw ((==_iff _ _).0 h) asked) in
      let flagged =
        any-Permᴰ (λ k. (Card.id k == i) && description_flag o k) perm
        ∙ any-select-weaken (λ k. (Card.id k == i) && description_flag o k) q db.cards
            (λ k h. let same : Card.id k ≡ i = ground arith in rw same asked) in
      elim (Bool-cases (any (λ k. Card.id k == i) db.cards)) [
        | inl h ↦ got ∙ rw (all_rows, h) flagged
        | inr h ↦
            let none_flagged : is_described o db i ≡ false =
              any-weaken (λ k. Card.id k == i) (λ k. (Card.id k == i) && description_flag o k)
                db.cards (λ k p. ground arith) h in
            got ∙ rw (all_rows, h, none_flagged) refl
      ]

  progress_lem :
      (cs : List CardSummary) (c : CardSummary)
      → Member c cs
      → map_get (progress_map o (progress_rows db (card_ids cs)) []) c.card.id
        ≡ progress_of o db c.card.id
  unfolding progress_rows map_get
  progress_lem cs c m =
      let got =
        progress_map-get o db
          (select (λ i. any (λ l. Checklist.card_id l == i) db.checklists) (card_ids cs)) []
          c.card.id in
      let chosen =
        any-chosen o db (λ i. any (λ l. Checklist.card_id l == i) db.checklists) (card_ids cs)
          c.card.id in
      let there : any (λ j. j == c.card.id) (card_ids cs) ≡ true =
        any-Member (λ j. j == c.card.id) c.card.id (card_ids cs)
          (Member-map (λ d. Card.id (CardSummary.card d)) c cs m) (==_refl c.card.id) in
      ground (arith, got, chosen)

  -- The batched queries and the maps give every card of a list what it would get alone: whether its
  -- stored description has a character that is not white space, and the counts over its checklists,
  -- or no progress if it has none.
  pub attach_card_list_enrichments-enriched :
      (cs : List CardSummary) → attach_card_list_enrichments o db cs ≡ map (enriched o db) cs
  unfolding attach_card_list_enrichments attach_description_flags attach_checklist_progress set_flag
      set_progress
  attach_card_list_enrichments-enriched [] = refl
  attach_card_list_enrichments-enriched (c ∷ cs) =
      let list = c ∷ cs in
      let flags = flag_map o (o.cards.find (λ k. is_in (card_ids list) (Card.id k)) db.cards) [] in
      let flagged = map (set_flag flags) list in
      map-map (set_flag flags)
        (set_progress (progress_map o (progress_rows db (card_ids flagged)) [])) list
      ∙ map-cong _ (enriched o db) list (λ d m.
        ap₂ (λ f p. record d { has_description = f; checklist_progress = p }) (flag_lem list d m)
          (progress_lem flagged (set_flag flags d) (Member-map (set_flag flags) d list m)))
