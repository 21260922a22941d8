-- ===== src/Cards/Untouched.antt =====
-- What a write to the cards, or a pass over one column, leaves alone.
use kan_pad.Base.{
  ℕ, ap, ◌∙◌, sym, ◌≡◌, true, false, List, map, map-Member, arith, length-select-map, ◌==◌,
}
use kan_pad.Base.Int.{ℤ}
use kan_pad.Cards.Dense.{IsDense}
use kan_pad.Cards.Ownership.{OwnsColumn}
use kan_pad.Cards.Passes.{in_column, reposition}
use kan_pad.Store.Distinct.{Distinct}
use kan_pad.Store.Entities.{BoardColumn, Card, Db}
use kan_pad.Store.Keyed.{IsKeyed}

pub IsKeyed-cards :
    (db : Db) (t : List Card) → IsKeyed db → Distinct Card.id t → IsKeyed (record db { cards = t })
IsKeyed-cards db t k d = record {
  users = k.users;
  projects = k.projects;
  boards = k.boards;
  columns = k.columns;
  cards = d;
  labels = k.labels;
  checklists = k.checklists;
  checklist_items = k.checklist_items;
  tags = k.tags;
  notes = k.notes;
}

pub owned_cards :
    (db : Db) (t : List Card) (user_id : ℕ) (column : BoardColumn)
    → OwnsColumn db user_id column
    → OwnsColumn (record db { cards = t }) user_id column
owned_cards db t user_id column h = record {
  column_in = h.column_in;
  board = h.board;
  board_in = h.board_in;
  board_is = h.board_is;
  owner_is = h.owner_is;
}

-- A pass over one column leaves the order of another.
pub reposition-IsDense :
    (source target : ℕ) (shift : ℤ → ℤ) (t : List Card)
    → (source == target) ≡ false
    → IsDense target t
    → IsDense target (map (reposition source shift) t)
reposition-IsDense source target shift t apart dense =
    let n = length-select-map (in_column target) (reposition source shift) t (λ c. ground arith) in
    let stays : (c : Card)
        → in_column target (reposition source shift c) ≡ true
        → (reposition source shift c ≡ c) × (in_column target c ≡ true) =
      λ c h. (ground arith, ground arith) in
    record {
      in_range = λ c m h.
          let (x, mx, e) = map-Member (reposition source shift) c t m in
          let (s, i) = stays x (ap (in_column target) (sym e) ∙ h) in
          rw (n, e, s) (dense.in_range x mx i);
      once = λ c d mc md hc hd same.
          let (x, mx, ex) = map-Member (reposition source shift) c t mc in
          let (y, my, ey) = map-Member (reposition source shift) d t md in
          let (sx, ix) = stays x (ap (in_column target) (sym ex) ∙ hc) in
          let (sy, iy) = stays y (ap (in_column target) (sym ey) ∙ hd) in
          let px = ex ∙ sx in
          let py = ey ∙ sy in
          ap Card.id px
          ∙ dense.once x y mx my ix iy (ap Card.position (sym px) ∙ same ∙ ap Card.position py)
          ∙ ap Card.id (sym py);
    }
