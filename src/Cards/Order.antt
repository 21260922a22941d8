-- ===== src/Cards/Order.antt =====
-- backend/src/cards/cards.service.ts: the loops that make room in a column and close gaps.
use kan_pad.Base.{List, ℕ, ◌&&◌, length, if◌then◌else◌}
use kan_pad.Base.Int.{ℤ, pos, ◌+ℤ◌, ◌-ℤ◌, ltb_ℤ, leb_ℤ, eqb_ℤ, min_ℤ, max_ℤ}
use kan_pad.Store.Action.{Action, skip, when, for_each, ◌>>=◌}
use kan_pad.Store.Entities.{Card}
use kan_pad.Store.Repository.{Orm}
use kan_pad.Cards.Access.{save_card, cards_in_column}

-- `Math.max(0, Math.min(p, maxPos))`
abbrev pub clamp : ℤ → ℤ → ℤ
clamp max_pos p = max_ℤ (pos 0) (min_ℤ p max_pos)

module _ (o : Orm) where
  -- the body of the loop in `reorderWithinColumn`
  unfoldable pub reorder_step : ℤ → ℤ → Card → Action (Unit {0})
  reorder_step old_pos new_pos c =
      if ltb_ℤ old_pos new_pos && ltb_ℤ old_pos c.position && leb_ℤ c.position new_pos
      then save_card o (record c { position = c.position -ℤ pos 1 })
      else if ltb_ℤ new_pos old_pos && leb_ℤ new_pos c.position && ltb_ℤ c.position old_pos
      then save_card o (record c { position = c.position +ℤ pos 1 })
      else skip

  -- the end of `reorderWithinColumn`, from `if (safeOldPos === safeNewPos) return`; the saves are
  -- awaited together, after the loop has issued them in its order
  unfoldable pub reorder_cards : List Card → ℤ → ℤ → Action (Unit {0})
  unfolding reorder_step for_each
  reorder_cards cards safe_old safe_new =
      if eqb_ℤ safe_old safe_new then skip else for_each cards (reorder_step safe_old safe_new)

  unfoldable pub reorder_within_column : ℕ → ℤ → ℤ → Action (Unit {0})
  unfolding reorder_cards
  reorder_within_column column_id old_pos new_pos = if eqb_ℤ old_pos new_pos then skip else (do
    cards ← cards_in_column o column_id
    let max_pos = pos (length cards) -ℤ pos 1
    reorder_cards cards (clamp max_pos old_pos) (clamp max_pos new_pos))

  unfoldable pub remove_step : ℤ → Card → Action (Unit {0})
  remove_step position c =
      when (ltb_ℤ position c.position) (save_card o (record c { position = c.position -ℤ pos 1 }))

  unfoldable pub remove_from_column : ℕ → ℤ → Action (Unit {0})
  unfolding remove_step for_each
  remove_from_column column_id position = do
    cards ← cards_in_column o column_id
    for_each cards (remove_step position)

  unfoldable pub insert_step : ℤ → Card → Action (Unit {0})
  insert_step position c =
      when (leb_ℤ position c.position) (save_card o (record c { position = c.position +ℤ pos 1 }))

  unfoldable pub insert_into_column : ℕ → ℤ → Action (Unit {0})
  unfolding insert_step for_each
  insert_into_column column_id position = do
    cards ← cards_in_column o column_id
    for_each cards (insert_step position)
