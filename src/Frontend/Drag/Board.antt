-- ===== src/Frontend/Drag/Board.antt =====
-- The order of a column, on the client and in the database: what leaving a column and entering one
-- do to both.
use kan_pad.Base.{
  ℕ, suc, ◌-◌, ◌≤◌, ◌≡◌, ◌≢◌, ap, ap₂, ◌∙◌, sym, inl, inr, true, false, List, map, Member,
  Member-map, map-Member, some, arith, length, ◌==◌, ==_iff, ==_refl, ltb, Bool-cases,
  if◌then◌else◌,
}
use kan_pad.Base.Int.{pos}
use kan_pad.Cards.Passes.{in_column, shift_down, shift_up}
use kan_pad.Cards.Transfer.{transferred, transferred-id, in_source, in_target, position_self}
use kan_pad.Frontend.Arrays.{
  nth, insert_at, remove_at, without, without-once, without-absent, nth-insert_at,
}
use kan_pad.Store.Distinct.{Distinct, Distinct-unique}
use kan_pad.Store.Entities.{Card}
use kan_pad.Frontend.Drag.Places.{
  Agrees, pos_injective, shift_down-pos, shift_up-pos, nth-closed, nth-entered, nth-opened,
  reclosed_at, reclosed_ne, reclosed_back,
}

module _ (card : Card) (target : ℕ) (new : ℕ) (apart : (card.column_id == target) ≡ false) where
  stays :
      (c : Card)
      → (c.id == card.id) ≡ false
      → in_column card.column_id c ≡ true
      → (in_column card.column_id (transferred card target (pos new) c) ≡ true)
        × (Card.position (transferred card target (pos new) c)
            ≡ shift_down card.position c.position)
  stays c n i = ground arith

  makes_room :
      (c : Card)
      → (c.id == card.id) ≡ false
      → in_column target c ≡ true
      → (in_column target (transferred card target (pos new) c) ≡ true)
        × (Card.position (transferred card target (pos new) c) ≡ shift_up (pos new) c.position)
  makes_room c n i = ground arith

  module _ (t : List Card) (distinct : Distinct Card.id t) (here : Member card t)
      (ids : List ℕ) where
    abbrev pub after : List Card
    after = map (transferred card target (pos new)) t

    module _ (agrees : Agrees ids card.column_id t) where
      abbrev old_place : ℕ
      old_place = (agrees.shown card here (==_refl card.column_id)).0

      at_place : card.position ≡ pos old_place
      at_place = (agrees.shown card here (==_refl card.column_id)).1

      left : without card.id ids ≡ remove_at old_place ids
      left =
          let self = (agrees.shown card here (==_refl card.column_id)).2 in
          without-once card.id old_place ids self λ i e.
            let (c, m, _, same, q) = agrees.stored i card.id e in
            let one = Distinct-unique Card.id c card t distinct m here same in
            pos_injective (sym q ∙ ap Card.position one ∙ at_place)

      closed_at :
          (c : Card) (q : ℕ)
          → Card.position c ≡ pos q
          → q ≢ old_place
          → shift_down card.position c.position ≡ pos (if ltb q old_place then q else q - 1)
      closed_at c q e n = ap₂ shift_down at_place e ∙ shift_down-pos old_place q n

      apart_from_place :
          (x : Card) (q : ℕ) → (x.id == card.id) ≡ false → nth ids q ≡ some x.id → q ≢ old_place
      apart_from_place x q n shown w =
          let self = (agrees.shown card here (==_refl card.column_id)).2 in
          let same : some x.id ≡ some card.id = sym shown ∙ ap (nth ids) w ∙ self in
          absurd (ground arith)

      leave-shown :
          (c : Card)
          → Member c after
          → in_column card.column_id c ≡ true
          → (p : ℕ) × (Card.position c ≡ pos p) × (nth (without card.id ids) p ≡ some (Card.id c))
      leave-shown c m i =
          let (x, mx, e) = map-Member (transferred card target (pos new)) c t m in
          let (n, ix, shifted) =
            in_source card target (pos new) apart x (ap (in_column card.column_id) (sym e) ∙ i) in
          let (q, at_q, shown) = agrees.shown x mx ix in
          let other = apart_from_place x q n shown in
          (
            if ltb q old_place then q else q - 1,
            ap Card.position e ∙ shifted ∙ closed_at x q at_q other,
            ap (λ l. nth l (if ltb q old_place then q else q - 1)) left
                ∙ nth-closed old_place q ids other
                ∙ shown
                ∙ ap some (sym (ap Card.id e ∙ transferred-id card target (pos new) apart x)),
          )

      another :
          (c : Card) (q : ℕ)
          → Member c t
          → Card.position c ≡ pos q
          → q ≢ old_place
          → (c.id == card.id) ≡ false
      another c q m at_q other = elim (Bool-cases (c.id == card.id)) [
        | inl e ↦
            let one = Distinct-unique Card.id c card t distinct m here ((==_iff _ _).0 e) in
            absurd (other (pos_injective (sym at_q ∙ ap Card.position one ∙ at_place)))
        | inr n ↦ n
      ]

      leave-stored :
          (i id : ℕ)
          → nth (without card.id ids) i ≡ some id
          → (c : Card) × Member c after
            × (in_column card.column_id c ≡ true)
            × (Card.id c ≡ id)
            × (Card.position c ≡ pos i)
      leave-stored i id e =
          let q = if ltb i old_place then i else suc i in
          let found : nth ids q ≡ some id =
            reclosed_at old_place i ids ∙ ap (λ l. nth l i) (sym left) ∙ e in
          let (c, m, ic, same, at_q) = agrees.stored q id found in
          let other = reclosed_ne old_place i in
          let n = another c q m at_q other in
          let (inside, shifted) = stays c n ic in
          (
            transferred card target (pos new) c,
            Member-map (transferred card target (pos new)) c t m,
            inside,
            transferred-id card target (pos new) apart c ∙ same,
            shifted ∙ closed_at c q at_q other ∙ ap pos (reclosed_back old_place i),
          )

      -- The column that the card leaves: its order is the old one without the card.
      pub leave-Agrees : Agrees (without card.id ids) card.column_id after
      leave-Agrees = record { shown = leave-shown; stored = leave-stored }

    -- the card is not in the column that it enters
    not_inside : (c : Card) → in_column target c ≡ true → Member c t → (c.id == card.id) ≡ false
    not_inside c i m = elim (Bool-cases (c.id == card.id)) [
      | inl e ↦
          let one = Distinct-unique Card.id c card t distinct m here ((==_iff _ _).0 e) in
          absurd (ground (arith, one, i, apart))
      | inr n ↦ n
    ]

    module _ (agrees : Agrees ids target t) where
      pub absent : without card.id ids ≡ ids
      absent = without-absent card.id ids λ i e.
          let (c, m, ic, same, _) = agrees.stored i card.id e in
          let n = not_inside c ic m in absurd (ground (arith, n, same, ==_refl card.id))

    module _ (agrees : Agrees ids target t) (range : new ≤ length ids) where
      enter-shown :
          (c : Card)
          → Member c after
          → in_column target c ≡ true
          → (p : ℕ) × (Card.position c ≡ pos p)
            × (nth (insert_at new card.id ids) p ≡ some (Card.id c))
      enter-shown c m i =
          let (x, mx, e) = map-Member (transferred card target (pos new)) c t m in
          let named = ap Card.id e ∙ transferred-id card target (pos new) apart x in
          let inside = ap (in_column target) (sym e) ∙ i in
          elim (Bool-cases (x.id == card.id)) [
            | inl y ↦ (
              new,
              ap Card.position e ∙ position_self card target (pos new) apart x y,
              nth-entered new card.id ids range ∙ ap some (sym ((==_iff _ _).0 y) ∙ sym named),
            )
            | inr n ↦
                let (ix, shifted) = in_target card target (pos new) apart x n inside in
                let (q, at_q, shown) = agrees.shown x mx ix in
                (
                  if ltb q new then q else suc q,
                  ap Card.position e ∙ shifted ∙ ap (shift_up (pos new)) at_q ∙ shift_up-pos new q,
                  nth-opened new q card.id ids range ∙ shown ∙ ap some (sym named),
                )
          ]

      enter-other :
          (i q id : ℕ)
          → (if ltb q new then q else suc q) ≡ i
          → nth ids q ≡ some id
          → (c : Card) × Member c after
            × (in_column target c ≡ true)
            × (Card.id c ≡ id)
            × (Card.position c ≡ pos i)
      enter-other i q id place_of found =
          let (c, m, ic, same, at_q) = agrees.stored q id found in
          let (inside, shifted) = makes_room c (not_inside c ic m) ic in
          (
            transferred card target (pos new) c,
            Member-map (transferred card target (pos new)) c t m,
            inside,
            transferred-id card target (pos new) apart c ∙ same,
            shifted ∙ ap (shift_up (pos new)) at_q ∙ shift_up-pos new q ∙ ap pos place_of,
          )

      enter_self :
          (i id : ℕ)
          → i ≡ new
          → card.id ≡ id
          → (c : Card) × Member c after
            × (in_column target c ≡ true)
            × (Card.id c ≡ id)
            × (Card.position c ≡ pos i)
      enter_self i id at_new same = (
        transferred card target (pos new) card,
        Member-map (transferred card target (pos new)) card t here,
        ground (arith, ==_refl card.id, ==_refl target),
        transferred-id card target (pos new) apart card ∙ same,
        position_self card target (pos new) apart card (==_refl card.id) ∙ ap pos (sym at_new),
      )

      enter-stored :
          (i id : ℕ)
          → nth (insert_at new card.id ids) i ≡ some id
          → (c : Card) × Member c after
            × (in_column target c ≡ true)
            × (Card.id c ≡ id)
            × (Card.position c ≡ pos i)
      enter-stored i id e =
          let read = nth-insert_at new card.id ids i range in
          elim (Bool-cases (ltb i new)) [
            | inl below ↦ enter-other i i id (ground arith) (ground (arith, read, e, below))
            | inr above ↦ elim (Bool-cases (i == new)) [
              | inl at_new ↦
                  enter_self i id ((==_iff _ _).0 at_new) (ground (arith, read, e, above, at_new))
              | inr beyond ↦
                  enter-other i (i - 1) id (ground arith) (ground (arith, read, e, above, beyond))
            ]
          ]

      -- The column that the card enters: its order is the old one with the card at its new place.
      pub enter-Agrees : Agrees (insert_at new card.id ids) target after
      enter-Agrees = record { shown = enter-shown; stored = enter-stored }

    module _ (k : ℕ) (elsewhere : (k == card.column_id) ≡ false) (beside : (k == target) ≡ false)
        (agrees : Agrees ids k t) where
      unmoved :
          (x : Card)
          → in_column k (transferred card target (pos new) x) ≡ true
          → transferred card target (pos new) x ≡ x
      unmoved x i = ground (arith, i, elsewhere, beside)

      untouched :
          (x : Card) → Member x t → in_column k x ≡ true → transferred card target (pos new) x ≡ x
      untouched x m i =
          let named = λ (e : x.id ≡ card.id). Distinct-unique Card.id x card t distinct m here e in
          ground (arith, i, elsewhere, beside, named)

      -- Another column keeps its order.
      pub beside-Agrees : Agrees ids k after
      beside-Agrees = record {
        shown = λ c m i.
            let (x, mx, e) = map-Member (transferred card target (pos new)) c t m in
            let same = e ∙ unmoved x (ap (in_column k) (sym e) ∙ i) in
            let (p, at_p, found) = agrees.shown x mx (ap (in_column k) (sym same) ∙ i) in
            (p, ap Card.position same ∙ at_p, found ∙ ap some (ap Card.id (sym same)));
        stored = λ i id e.
            let (c, m, ic, named, at_i) = agrees.stored i id e in
            let same = untouched c m ic in
            (
              transferred card target (pos new) c,
              Member-map (transferred card target (pos new)) c t m,
              ap (in_column k) same ∙ ic,
              ap Card.id same ∙ named,
              ap Card.position same ∙ at_i,
            );
      }
