-- ===== src/Tests/FrontendRuns.antt =====
-- The theorems on the client, applied to the small database and to small states.
use mathlib.Core.List.{Permᴰ}
use mathlib.Core.Path.{subst₂}
use kan_pad.Base.{
  ℕ, zero, suc, Member, ap, sym, ◌≡◌, ◌≢◌, refl, arith, inl, inr, true, false, List, [], ◌∷◌,
  Option, none, some, ==_iff, Bool-cases, ◌==◌, if◌then◌else◌,
}
use kan_pad.Base.Int.{pos}
use kan_pad.Base.JsMap.{map_get}
use kan_pad.Base.Text.{Text, codes}
use kan_pad.Cards.Passes.{in_column}
use kan_pad.Checklists.{UpdateChecklistItemDto}
use kan_pad.Columns.View.{ColumnView}
use kan_pad.Frontend.Arrays.{find, find_index, nth, insert_at}
use kan_pad.Frontend.Client.{
  ApiError, Json, null, Response, resolved, returned, thrown_api, is_ok, api_fetch, error_messages,
  message_of_status, get_error_message,
}
use kan_pad.Frontend.Client.Routed.{api_fetch-routes}
use kan_pad.Frontend.Drag.{
  Host, DragData, Over, string, DragEvent, move_card, id_of, is_column, contains, insert_index,
  number_cards, moved_card, target_column_id, get_card_id_from_dnd_id, strip_prefix,
}
use kan_pad.Frontend.Drag.Lookup.{IsShown, shown_of, drop_event, began_in, send}
use kan_pad.Frontend.Drag.Agreement.{handle_drag_end-IsShown}
use kan_pad.Frontend.Drag.Places.{Agrees}
use kan_pad.Frontend.Drag.Drop.{handle_drag_over, handle_drag_end, over_columns, over_column}
use kan_pad.Frontend.Drag.Kept.{IsDragOf, rest_of, Dragged, begin, over, Dragged-rest}
use kan_pad.Frontend.ListSort.{FlatCard, Locale, by_due_date, descending, sort_flat_cards}
use kan_pad.Frontend.ListSort.Order.{InOrder}
use kan_pad.Frontend.ListSort.Sorted.{IsLocale, IsListed, IsDueFirst, sort_flat_cards-IsListed}
use kan_pad.Frontend.Queries.{QueryClient, IsDocumented, updated}
use kan_pad.Frontend.Queries.CardKeys.{CardsKey, page_of, column, same_key, by_column}
use kan_pad.Frontend.Queries.Cards.{Cards, delete_card, on_mutate, on_error}
use kan_pad.Frontend.Queries.Items.{CachedCard}
use kan_pad.Frontend.Queries.Unreached.{mutations-read}
use kan_pad.Frontend.Toasts.{
  ToastOptions, Provider, mounted, toast, dismiss, fire_due, elapse, Reach, mount, step, shows,
  dismisses,
}
use kan_pad.Frontend.Toasts.Cleared.{fire_due-clears}
use kan_pad.Frontend.Toasts.Sound.{IsTimed}
use kan_pad.Frontend.Toasts.Timed.{Reach-IsTimed}
use kan_pad.Store.Entities.{Card, Db}
use kan_pad.Summary.{CardSummary}
use kan_pad.Tests.CardRuns.{world-IsDense, second_IsDense, first_card, second_column}
use kan_pad.Tests.World.{engine, engine-IsLawful, world, world-IsKeyed, card_at, column_at}

-- the drag of card 1 over card 3 of the other column
abbrev browser : Host
browser = record { to_number = λ t. none; array_move = λ cards from to. cards }

abbrev summary_of : Card → CardSummary
summary_of c = record { card = c; labels = []; has_description = false; checklist_progress = none }

abbrev board_shown : List ColumnView
board_shown =
    record {
      column = column_at 1 0;
      cards = summary_of (card_at 1 1 0) ∷ summary_of (card_at 2 1 1) ∷ [];
    }
    ∷ record { column = column_at 2 1; cards = summary_of (card_at 3 2 0) ∷ [] }
    ∷ []

abbrev third : Over
third = record {
  id = string (codes "card-3");
  current = some (record { column_id = none; card = some (summary_of (card_at 3 2 0)) });
}

abbrev first_data : DragData
first_data = record {
  card_id = 1;
  source_column_id = 1;
  card = some (summary_of (card_at 1 1 0));
  index = some 0;
}

abbrev over_third : DragEvent
over_third = record { active = some first_data; over = some third }

over_third-IsDragOf : IsDragOf 1 over_third
unfolding id_of
over_third-IsDragOf = record { card_id = λ d e. ground arith; card = λ d c e f. ground arith }

first-Dragged : Dragged browser 1 board_shown (handle_drag_over browser over_third board_shown)
first-Dragged = over over_third begin over_third-IsDragOf

first_stored :
    (i id : ℕ)
    → nth (1 ∷ 2 ∷ []) i ≡ some id
    → (c : Card) × Member c world.cards
      × (in_column 1 c ≡ true)
      × (Card.id c ≡ id)
      × (Card.position c ≡ pos i)
unfolding nth
first_stored zero id e = (card_at 1 1 0, inl refl, refl, ground (arith, e), refl)
first_stored (suc zero) id e = (card_at 2 1 1, inr (inl refl), refl, ground (arith, e), refl)
first_stored (suc (suc i)) id e = absurd (ground (arith, e))

first_Agrees : Agrees (1 ∷ 2 ∷ []) 1 world.cards
unfolding nth
first_Agrees = record {
  shown = λ c m i. elim m [
    | inl e ↦ (0, ap Card.position e, ap some (sym (ap Card.id e)))
    | inr (inl e) ↦ (1, ap Card.position e, ap some (sym (ap Card.id e)))
    | inr (inr (inl e)) ↦ absurd (ground (arith, i, ap Card.column_id e))
    | inr (inr (inr n)) ↦ absurd n
  ];
  stored = first_stored;
}

second_stored :
    (i id : ℕ)
    → nth (3 ∷ []) i ≡ some id
    → (c : Card) × Member c world.cards
      × (in_column 2 c ≡ true)
      × (Card.id c ≡ id)
      × (Card.position c ≡ pos i)
unfolding nth
second_stored zero id e = (card_at 3 2 0, inr (inr (inl refl)), refl, ground (arith, e), refl)
second_stored (suc i) id e = absurd (ground (arith, e))

second_Agrees : Agrees (3 ∷ []) 2 world.cards
unfolding nth
second_Agrees = record {
  shown = λ c m i. elim m [
    | inl e ↦ absurd (ground (arith, i, ap Card.column_id e))
    | inr (inl e) ↦ absurd (ground (arith, i, ap Card.column_id e))
    | inr (inr (inl e)) ↦ (0, ap Card.position e, ap some (sym (ap Card.id e)))
    | inr (inr (inr n)) ↦ absurd n
  ];
  stored = second_stored;
}

board_shown-IsShown : IsShown board_shown world.cards
unfolding shown_of id_of map_get
board_shown-IsShown k l e = elim (Bool-cases (1 == k)) [
  | inl h ↦
      let at : 1 ≡ k = (==_iff 1 k).0 h in
      let same : 1 ∷ 2 ∷ [] ≡ l = ground (arith, e, h) in
      subst₂ (λ m i. Agrees m i world.cards) same at first_Agrees
  | inr h ↦ elim (Bool-cases (2 == k)) [
    | inl g ↦
        let at : 2 ≡ k = (==_iff 2 k).0 g in
        let same : 3 ∷ [] ≡ l = ground (arith, e, h, g) in
        subst₂ (λ m i. Agrees m i world.cards) same at second_Agrees
    | inr g ↦ absurd (ground (arith, e, h, g))
  ]
]

abbrev dragged_over : List ColumnView
dragged_over = handle_drag_over browser over_third board_shown

Dragged-rest_example : rest_of 1 dragged_over ≡ rest_of 1 board_shown
Dragged-rest_example = Dragged-rest browser first-Dragged

elsewhere :
    (k : ℕ) (w : ColumnView)
    → (k == 1) ≡ false
    → (k == 2) ≡ false
    → find (is_column k) dragged_over ≡ some w
    → contains 1 w ≡ false
unfolding find handle_drag_over over_columns target_column_id get_card_id_from_dnd_id strip_prefix
    insert_index find_index over_column number_cards moved_card insert_at id_of
elsewhere k w h g e = absurd (ground (arith, e, h, g))

handle_drag_end-IsShown_example :
    (after : List ColumnView) × (handle_drag_end browser
        (drop_event first_data (card_at 1 1 0) (summary_of (card_at 1 1 0)) third)
        (began_in (record { active_card = none; drag_source = none }) 1 0)
        dragged_over
      ≡ (after, some (move_card 1 2 (pos 1))))
    × IsShown after (Db.cards (send engine 1 (move_card 1 2 (pos 1)) world).1)
unfolding find handle_drag_over over_columns target_column_id get_card_id_from_dnd_id strip_prefix
    insert_index find_index over_column number_cards moved_card insert_at id_of
handle_drag_end-IsShown_example =
    handle_drag_end-IsShown engine engine-IsLawful browser (card_at 1 1 0) (column_at 2 1) world
      world-IsKeyed refl 1 first_card second_column world-IsDense second_IsDense first-Dragged
      board_shown-IsShown (record { active_card = none; drag_source = none }) 0 first_data
      (summary_of (card_at 1 1 0)) third _ _ refl refl refl refl (omega arith) elsewhere

-- two toasts, the first of them dismissed
abbrev note : ToastOptions
note = record { title = codes "Saved"; description = none; type = none; action = none }

abbrev two_toasts : Provider
two_toasts = dismiss 7 (toast note 8 (toast note 7 (mounted 100)))

two_toasts_reached : Reach 100 two_toasts
two_toasts_reached = step (step (step mount (shows note 7 _)) (shows note 8 _)) (dismisses 7 _)

Reach-IsTimed_example : IsTimed two_toasts
Reach-IsTimed_example = Reach-IsTimed two_toasts_reached

fire_due-clears_example : Provider.toasts (fire_due (elapse 6000 two_toasts)) ≡ []
fire_due-clears_example = fire_due-clears two_toasts_reached 6000 (omega arith)

-- a cache as a function of the keys, which lists the queries under two of them
abbrev card_cache : QueryClient (CardsKey → Option Cards) CardsKey Cards
card_cache = record {
  get_query_data = λ s k. s k;
  set_query_data = λ s k f j. if same_key k j then updated (s k) (f (s k)) else s j;
  get_queries_data = λ s. (page_of 1 1 50, s (page_of 1 1 50)) ∷ (column 1, s (column 1)) ∷ [];
}

card_cache-IsDocumented : IsDocumented card_cache same_key
card_cache-IsDocumented = record {
  get_set_same = λ s k j f h. rw h refl;
  get_set_other = λ s k j f h. rw h refl;
}

abbrev cached : CardsKey → Option Cards
cached (page_of c p l) = some (summary_of (card_at 1 1 0) ∷ [])
cached (column c) = none

mutations-read_example :
    (card_cache.get_query_data
        (on_mutate card_cache (delete_card 1) cached).0
        (by_column 1 none none)
      ≡ card_cache.get_query_data cached (by_column 1 none none))
    × (card_cache.get_query_data (on_error card_cache [] cached) (by_column 1 none none)
        ≡ card_cache.get_query_data cached (by_column 1 none none))
mutations-read_example =
    mutations-read card_cache card_cache-IsDocumented (delete_card 1) [] cached 1 none none

abbrev item_cache : QueryClient (ℕ → Option CachedCard) ℕ CachedCard
item_cache = record {
  get_query_data = λ s k. s k;
  set_query_data = λ s k f j. if k == j then updated (s k) (f (s k)) else s j;
  get_queries_data = λ s. [];
}

item_cache-IsDocumented : IsDocumented item_cache ◌==◌
item_cache-IsDocumented = record {
  get_set_same = λ s k j f h. rw h refl;
  get_set_other = λ s k j f h. rw h refl;
}

abbrev completed : UpdateChecklistItemDto
completed = record { text = none; is_completed = some true }

abbrev one_card : ℕ → Option CachedCard
one_card k =
    if k == 1 then some (record { card = card_at 1 1 0; labels = []; checklists = none }) else none

-- a `localeCompare` that finds all titles equal
abbrev plain : Locale
plain = record { get_time = λ text. none; locale_compare = λ a b. pos 0 }

plain-IsLocale : IsLocale plain
plain-IsLocale = record {
  total = λ a b. inl (omega arith);
  flipped = λ a b h. omega arith;
  flipped_back = λ a b h. omega arith;
  transitive = λ a b c h k. omega arith;
}

abbrev flat : ℕ → Option Text → FlatCard
flat id due_date = record {
  id = id;
  title = [];
  due_date = due_date;
  created_at = [];
  updated_at = [];
}

abbrev flat_cards : List FlatCard
flat_cards = flat 1 none ∷ flat 2 (some (codes "2024-01-01")) ∷ []

sort_flat_cards-IsListed_example :
    Permᴰ (sort_flat_cards plain flat_cards by_due_date descending) flat_cards
    × IsListed
        (InOrder plain by_due_date descending)
        (sort_flat_cards plain flat_cards by_due_date descending)
    × IsDueFirst (sort_flat_cards plain flat_cards by_due_date descending)
sort_flat_cards-IsListed_example =
    sort_flat_cards-IsListed plain plain-IsLocale flat_cards by_due_date descending

abbrev not_there : Response
not_there = record { status = 404; status_text = []; body = some null }

api_fetch-routes_example :
    (is_ok not_there ≡ false
      → (e : ApiError) × (api_fetch (resolved not_there) ≡ thrown_api e)
        × (e.status ≡ not_there.status)
        × (get_error_message (api_fetch (resolved not_there))
            ≡ some (error_messages (message_of_status not_there.status))))
    × (is_ok not_there ≡ true
        → not_there.status ≡ 204
        → api_fetch (resolved not_there) ≡ returned none)
    × ((value : Json)
        → is_ok not_there ≡ true
        → not_there.status ≢ 204
        → not_there.body ≡ some value
        → api_fetch (resolved not_there) ≡ returned (some value))
    × (is_ok not_there ≡ true
        → not_there.status ≢ 204
        → not_there.body ≡ none
        → (e : ApiError) × (api_fetch (resolved not_there) ≡ thrown_api e)
          × (e.status ≡ not_there.status))
api_fetch-routes_example = api_fetch-routes not_there
