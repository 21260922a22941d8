-- ===== src/Columns/Moves.antt =====
-- `moveAllCards`: where the cards of a column go, and what happens to the cards that were there.
use mathlib.Core.List.Permᴰ
use mathlib.Core.Path.{subst}
use kan_pad.Base.{
  ℕ, ap, ◌∙◌, sym, ◌≡◌, refl, ◌≢◌, ◌⊎◌, inl, inr, true, false, List, [], ◌∷◌, map, arith, any,
  Member, Member-map, map-Member, Member-Permᴰ, Member-select, Bool-cases, get_or, Option-cases,
  ◌==◌, ==_iff,
}
use kan_pad.Base.Int.{ℤ, negsuc, ◌≤ℤ◌, ◌<ℤ◌, lt_irrefl, le_lt}
use kan_pad.Columns.Service.{renumber, save_cards, move_cards}
use kan_pad.Store.Action.{ok, for_each}
use kan_pad.Store.Distinct.{
  any-Member, Member-any, Distinct-unique, Distinct, same_id, any-same, any-selected,
  Distinct-select, Distinct-Permᴰ,
}
use kan_pad.Store.Entities.{Card, Db}
use kan_pad.Store.Laws.{IsLawful}
use kan_pad.Store.Repository.{Orm}
use kan_pad.Store.SaveAll.{save_all, latest, save_all-latest, latest-Member, latest_new}
use kan_pad.Columns.Renumber.{
  any-renumber, Distinct-renumber, IsRenumbered, renumber-IsRenumbered, renumber-once,
}

-- What `moveAllCards` leaves: no card stays in the source; the cards of other columns stay as they
-- are; a card of the source is in the target, otherwise unchanged, behind each card that was there;
-- and a position that two cards of the target share afterwards they shared before.
pub record IsMoved (source_id target_id : ℕ) (before after : List Card) : Type 0 where
  pub emptied : (c : Card) → Member c after → (Card.column_id c == source_id) ≡ false
  pub kept : (c : Card) → Member c before → (Card.column_id c == source_id) ≡ false → Member c after
  pub behind :
      (c : Card)
      → Member c before
      → (Card.column_id c == source_id) ≡ true
      → (d : Card) × Member d after
        × (d ≡ record c { column_id = target_id; position = Card.position d })
        × ((e : Card)
            → Member e before
            → (Card.column_id e == target_id) ≡ true
            → Card.position e <ℤ Card.position d)
  pub apart :
      (c d : Card)
      → Member c after
      → Member d after
      → (Card.column_id c == target_id) ≡ true
      → (Card.column_id d == target_id) ≡ true
      → Card.position c ≡ Card.position d
      → (c ≡ d) ⊎ (Member c before × Member d before)

module _ (o : Orm) where
  pub save_cards-save_all :
      (cs : List Card) (d : Db)
      → save_cards o cs d ≡ (ok tt, record d { cards = save_all Card.id o.cards cs d.cards })
  unfolding save_cards save_all for_each
  save_cards-save_all [] d = refl
  save_cards-save_all (c ∷ cs) d =
      save_cards-save_all cs (record d { cards = o.cards.save c d.cards })

module _ (o : Orm) (laws : IsLawful o) (db : Db) (distinct : Distinct Card.id db.cards)
    (source_id target_id : ℕ) (apart : source_id ≢ target_id) where
  abbrev pub found : List Card
  found = o.cards.find (λ c. Card.column_id c == source_id) db.cards

  abbrev pub last : ℤ
  last = get_or (o.cards.max Card.position (λ c. Card.column_id c == target_id) db.cards) (negsuc 0)

  abbrev pub numbered : List Card
  numbered = renumber target_id last found

  found-selected :
      (c : Card) → Member c db.cards → any (same_id Card.id c) found ≡ (c.column_id == source_id)
  found-selected c m =
      any-selected Card.id (λ c. Card.column_id c == source_id) found db.cards distinct
        (laws.cards.find-Permᴰ _ db.cards) c m

  found-Member :
      (c : Card) → Member c found → Member c db.cards × ((c.column_id == source_id) ≡ true)
  found-Member c m =
      Member-select (λ c. Card.column_id c == source_id) c db.cards
        (Member-Permᴰ c (laws.cards.find-Permᴰ _ db.cards) m)

  numbered-known : (c : Card) → Member c numbered → any (same_id Card.id c) db.cards ≡ true
  numbered-known c m =
      let there = any-renumber target_id c.id last found in
      let (x, mx, e) = Member-any Card.id c found (sym there ∙ any-same Card.id c numbered m) in
      any-Member (same_id Card.id c) x db.cards (found-Member x mx).0 ((==_iff _ _).1 e)

  numbered-Distinct : Distinct Card.id numbered
  numbered-Distinct = Distinct-renumber target_id last found (
      Distinct-Permᴰ Card.id (Permᴰ.symm (laws.cards.find-Permᴰ _ db.cards))
        (Distinct-select Card.id _ db.cards distinct))

  -- the transaction of `moveAllCards` as one pass
  pub move_cards-latest :
      move_cards o target_id found db
      ≡ (ok tt, record db { cards = map (latest Card.id numbered) db.cards })
  unfolding move_cards
  move_cards-latest =
      save_cards-save_all o numbered db
      ∙ ap (λ t. (ok tt, record db { cards = t }))
          (save_all-latest Card.id o.cards laws.cards numbered db.cards numbered-Distinct
            numbered-known)

  -- the row of a card after the pass
  latest-other :
      (c : Card)
      → Member c db.cards
      → (c.column_id == source_id) ≡ false
      → latest Card.id numbered c ≡ c
  latest-other c m h =
      latest_new Card.id c numbered
        (any-renumber target_id c.id last found ∙ found-selected c m ∙ h)

  latest-source :
      (c : Card)
      → Member c db.cards
      → (c.column_id == source_id) ≡ true
      → Member (latest Card.id numbered c) numbered
        × IsRenumbered target_id last c (latest Card.id numbered c)
  latest-source c m h =
      let (x, mx, e) = Member-any Card.id c found (found-selected c m ∙ h) in
      let same = Distinct-unique Card.id c x db.cards distinct m (found-Member x mx).0 e in
      let (d, md, r) = renumber-IsRenumbered target_id last found c (rw same mx) in
      let taken = latest-Member Card.id d c numbered numbered-Distinct md (ap Card.id r.row) in
      (rw taken md, rw taken r)

  above_target :
      (e : Card) → Member e db.cards → (e.column_id == target_id) ≡ true → e.position ≤ℤ last
  above_target e m h =
      elim (Option-cases
        (o.cards.max Card.position (λ c. Card.column_id c == target_id) db.cards)) [
          | inl q ↦
              let no = laws.cards.max-none Card.position _ db.cards e q m in absurd (ground arith)
          | inr (k, q) ↦ rw q (laws.cards.max-some Card.position _ db.cards k e q m h)
        ]

  abbrev pub after : List Card
  after = map (latest Card.id numbered) db.cards

  after-emptied : (c : Card) → Member c after → (c.column_id == source_id) ≡ false
  after-emptied c m =
      let (x, mx, e) = map-Member (latest Card.id numbered) c db.cards m in
      elim (Bool-cases (x.column_id == source_id)) [
        | inl h ↦
            let (_, r) = latest-source x mx h in
            let target : Card.column_id (latest Card.id numbered x) ≡ target_id =
              ap Card.column_id r.row in
            rw (e, target) (ground arith)
        | inr h ↦ rw (e, latest-other x mx h) h
      ]

  after-apart :
      (x y : Card)
      → Member x db.cards
      → Member y db.cards
      → (Card.column_id (latest Card.id numbered x) == target_id) ≡ true
      → (Card.column_id (latest Card.id numbered y) == target_id) ≡ true
      → Card.position (latest Card.id numbered x) ≡ Card.position (latest Card.id numbered y)
      → (latest Card.id numbered x ≡ latest Card.id numbered y)
        ⊎ (Member (latest Card.id numbered x) db.cards
            × Member (latest Card.id numbered y) db.cards)
  after-apart x y mx my tx ty p = elim (Bool-cases (x.column_id == source_id)) [
    | inl h ↦ elim (Bool-cases (y.column_id == source_id)) [
      | inl k ↦ inl (
          renumber-once target_id last found _ _ (latest-source x mx h).0 (latest-source y my k).0
            p)
      | inr k ↦
          let stay = latest-other y my k in
          let low = above_target y my (rw stay at ty) in
          absurd (
            lt_irrefl (sym (p ∙ ap Card.position stay)) (
              le_lt y.position last (Card.position (latest Card.id numbered x)) low
                (IsRenumbered.after (latest-source x mx h).1)))
    ]
    | inr h ↦ elim (Bool-cases (y.column_id == source_id)) [
      | inl k ↦
          let stay = latest-other x mx h in
          let low = above_target x mx (rw stay at tx) in
          absurd (
            lt_irrefl (sym (ap Card.position stay) ∙ p) (
              le_lt x.position last (Card.position (latest Card.id numbered y)) low
                (IsRenumbered.after (latest-source y my k).1)))
      | inr k ↦ inr (rw (latest-other x mx h) mx, rw (latest-other y my k) my)
    ]
  ]

  pub after-IsMoved : IsMoved source_id target_id db.cards after
  after-IsMoved = record {
    emptied = after-emptied;
    kept = λ c m h.
        subst (λ x. Member x after) (latest-other c m h)
          (Member-map (latest Card.id numbered) c db.cards m);
    behind = λ c m h.
        let (_, r) = latest-source c m h in
        (
          latest Card.id numbered c,
          Member-map (latest Card.id numbered) c db.cards m,
          r.row,
          λ e me t.
              le_lt e.position last (Card.position (latest Card.id numbered c))
                (above_target e me t) r.after,
        );
    apart = λ c d mc md tc td p.
        let (x, mx, ex) = map-Member (latest Card.id numbered) c db.cards mc in
        let (y, my, ey) = map-Member (latest Card.id numbered) d db.cards md in
        rw (ex, ey)
          (after-apart x y mx my (rw ex at tc) (rw ey at td)
            (ap Card.position (sym ex) ∙ p ∙ ap Card.position ey));
  }
