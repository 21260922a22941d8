-- ===== src/Summary.antt =====
-- backend/src/common/card-summary.helpers.ts: what the list queries attach to a card.
use Prim.Native.Nat.{ℕ, ◌+◌}
use mathlib.Core.Bool.{Bool, false, not, ◌&&◌}
use mathlib.Core.List.{List, [], ◌∷◌, map}
use mathlib.Core.Option.{Option, none, some}
pub mod Enriched
use kan_pad.Base.{length, select, any, get_or, ◌==◌, if◌then◌else◌}
use kan_pad.Base.JsMap.{map_get, map_set}
use kan_pad.Store.Cascade.{is_in}
use kan_pad.Store.Entities.{Card, CardLabel, Label, Checklist, ChecklistItem, Db}
use kan_pad.Store.Repository.{Orm}

pub record Progress : Type 0 where
  pub completed : ℕ
  pub total : ℕ
  pub percent : ℕ

-- A card of a list: its columns without the description, its labels, and the two attachments.
pub record CardSummary : Type 0 where
  pub card : Card
  pub labels : List Label
  pub has_description : Bool
  pub checklist_progress : Option Progress

-- A row of the progress query.
pub record ProgressRow : Type 0 where
  pub card_id : ℕ
  pub total : ℕ
  pub completed : ℕ

abbrev pub sum_of {ℓ} : {A : Type ℓ} → (A → ℕ) → List A → ℕ
sum_of f [] = 0
sum_of f (x ∷ xs) = f x + sum_of f xs

-- the rows that `leftJoinAndSelect` joins to a card
unfoldable pub labels_of : Db → Card → List Label
labels_of db card =
    select
      (λ l.
        any (λ cl. CardLabel.card_id cl == card.id && CardLabel.label_id cl == Label.id l)
          db.card_labels)
      db.labels

-- `buildCardSummaryQuery` on one row: the description is not selected.
unfoldable pub summary_row : Db → Card → CardSummary
summary_row db card = record {
  card = record card { description = none };
  labels = labels_of db card;
  has_description = false;
  checklist_progress = none;
}

-- `CASE WHEN card.description IS NOT NULL AND card.description REGEXP '[^[:space:]]' …`
unfoldable pub description_flag : Orm → Card → Bool
description_flag o card = elim (Card.description card) [
  | none ↦ false
  | some text ↦ any (λ c. not (o.is_regexp_space c)) text
]

-- `for (const row of flags) flagMap.set(…)`
unfoldable pub flag_map : Orm → List Card → List (ℕ × Bool) → List (ℕ × Bool)
flag_map o [] m = m
flag_map o (row ∷ rows) m = flag_map o rows (map_set row.id (description_flag o row) m)

-- `card.has_description = flagMap.get(card.id) ?? false`
unfoldable pub set_flag : List (ℕ × Bool) → CardSummary → CardSummary
set_flag flags c = record c { has_description = get_or (map_get flags c.card.id) false }

abbrev pub card_ids : List CardSummary → List ℕ
card_ids = map (λ c. Card.id (CardSummary.card c))

-- `attachDescriptionFlags`
unfoldable pub attach_description_flags : Orm → Db → List CardSummary → List CardSummary
attach_description_flags o db [] = []
attach_description_flags o db (c ∷ cs) =
    let ids = card_ids (c ∷ cs) in
    map (set_flag (flag_map o (o.cards.find (λ c. is_in ids (Card.id c)) db.cards) [])) (c ∷ cs)

unfoldable pub checklists_of : Db → ℕ → List Checklist
checklists_of db card_id = select (λ l. Checklist.card_id l == card_id) db.checklists

unfoldable pub items_in : Db → Checklist → List ChecklistItem
items_in db l = select (λ i. ChecklistItem.checklist_id i == l.id) db.checklist_items

abbrev pub completed_in : Db → Checklist → ℕ
completed_in db l = length (select ChecklistItem.is_completed (items_in db l))

-- The group of one card in `SELECT cl.card_id, COUNT(ci.id), SUM(ci.is_completed) … GROUP BY`.
unfoldable pub progress_row : Db → ℕ → ProgressRow
progress_row db card_id = record {
  card_id = card_id;
  total = sum_of (λ l. length (items_in db l)) (checklists_of db card_id);
  completed = sum_of (completed_in db) (checklists_of db card_id);
}

-- There is a group for each of the cards that has a checklist.
unfoldable pub progress_rows : Db → List ℕ → List ProgressRow
progress_rows db ids =
    map (progress_row db) (select (λ i. any (λ l. Checklist.card_id l == i) db.checklists) ids)

-- The value that the loop over `progressRaw` puts into the map for one row.
unfoldable pub to_progress : Orm → ProgressRow → Progress
to_progress o row = record {
  completed = row.completed;
  total = row.total;
  percent = if row.total == 0 then 0 else o.round_percent row.completed row.total;
}

unfoldable pub progress_map : Orm → List ProgressRow → List (ℕ × Progress) → List (ℕ × Progress)
progress_map o [] m = m
progress_map o (row ∷ rows) m = progress_map o rows (map_set row.card_id (to_progress o row) m)

unfoldable pub set_progress : List (ℕ × Progress) → CardSummary → CardSummary
set_progress progress c = record c { checklist_progress = map_get progress c.card.id }

-- `attachChecklistProgress`
unfoldable pub attach_checklist_progress : Orm → Db → List CardSummary → List CardSummary
attach_checklist_progress o db [] = []
attach_checklist_progress o db (c ∷ cs) =
    map (set_progress (progress_map o (progress_rows db (card_ids (c ∷ cs))) [])) (c ∷ cs)

-- `attachCardListEnrichments`
unfoldable pub attach_card_list_enrichments : Orm → Db → List CardSummary → List CardSummary
attach_card_list_enrichments o db [] = []
attach_card_list_enrichments o db (c ∷ cs) =
    attach_checklist_progress o db (attach_description_flags o db (c ∷ cs))
