-- ===== src/Columns/Renumber.antt =====
-- The loop of `moveAllCards` that renumbers the cards.

use kan_pad.Base.{ℕ, ap, ◌∙◌, sym, ◌≡◌, refl, inl, inr, List, [], ◌∷◌, any, Member, ◌==◌}
use kan_pad.Base.Int.{ℤ, pos, ◌+ℤ◌, ◌<ℤ◌, lt_irrefl, int_laws}
use kan_pad.Columns.Service.{renumber}
use kan_pad.Store.Distinct.{Distinct}
use kan_pad.Store.Entities.{Card}

module _ (target_id : ℕ) where
  pub any-renumber :
      (i : ℕ) (last : ℤ) (cs : List Card)
      → any (λ c. i == Card.id c) (renumber target_id last cs) ≡ any (λ c. i == Card.id c) cs
  unfolding renumber
  any-renumber i last [] = refl
  any-renumber i last (c ∷ cs) = rw (any-renumber i (last +ℤ pos 1) cs)

  pub Distinct-renumber :
      (last : ℤ) (cs : List Card)
      → Distinct Card.id cs
      → Distinct Card.id (renumber target_id last cs)
  unfolding renumber
  Distinct-renumber last [] d = tt
  Distinct-renumber last (c ∷ cs) d =
      (any-renumber c.id (last +ℤ pos 1) cs ∙ d.0, Distinct-renumber (last +ℤ pos 1) cs d.1)

  -- what a renumbered card is
  pub record IsRenumbered (last : ℤ) (c d : Card) : Type 0 where
    pub row : d ≡ record c { column_id = target_id; position = Card.position d }
    pub after : last <ℤ Card.position d

  pub renumber-IsRenumbered :
      (last : ℤ) (cs : List Card) (c : Card)
      → Member c cs
      → (d : Card) × Member d (renumber target_id last cs) × IsRenumbered last c d
  unfolding renumber
  renumber-IsRenumbered last [] c m = absurd m
  renumber-IsRenumbered last (x ∷ xs) c (inl h) = (
    record x { column_id = target_id; position = last +ℤ pos 1 },
    inl refl,
    record { row = rw h; after = omega int_laws },
  )
  renumber-IsRenumbered last (x ∷ xs) c (inr m) =
      let (d, md, r) = renumber-IsRenumbered (last +ℤ pos 1) xs c m in
      (d, inr md, record { row = r.row; after = omega (int_laws, r.after) })

  renumber-after :
      (last : ℤ) (cs : List Card) (d : Card)
      → Member d (renumber target_id last cs)
      → last <ℤ Card.position d
  unfolding renumber
  renumber-after last [] d m = absurd m
  renumber-after last (x ∷ xs) d (inl h) = rw h (omega int_laws)
  renumber-after last (x ∷ xs) d (inr m) = omega (int_laws, renumber-after (last +ℤ pos 1) xs d m)

  pub renumber-once :
      (last : ℤ) (cs : List Card) (c d : Card)
      → Member c (renumber target_id last cs)
      → Member d (renumber target_id last cs)
      → c.position ≡ d.position
      → c ≡ d
  unfolding renumber
  renumber-once last [] c d mc md e = absurd mc
  renumber-once last (x ∷ xs) c d (inl h) (inl k) e = h ∙ sym k
  renumber-once last (x ∷ xs) c d (inl h) (inr md) e =
      absurd (lt_irrefl (ap Card.position (sym h) ∙ e) (renumber-after (last +ℤ pos 1) xs d md))
  renumber-once last (x ∷ xs) c d (inr mc) (inl k) e =
      absurd (lt_irrefl (ap Card.position (sym k) ∙ sym e) (renumber-after (last +ℤ pos 1) xs c mc))
  renumber-once last (x ∷ xs) c d (inr mc) (inr md) e = renumber-once (last +ℤ pos 1) xs c d mc md e
