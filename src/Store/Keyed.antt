-- ===== src/Store/Keyed.antt =====
-- Primary keys: no two rows of a table share one, so a lookup by id finds the row that has it.
use kan_pad.Base.{
  ℕ, ◌≡◌, refl, inl, inr, Bool, true, false, List, Member, some, ◌==◌, ==_iff, ==_refl, arith,
  Option-cases, any, ◌++◌, ◌∷◌, [], snoc-Member, Member-snoc, any-false,
}
use kan_pad.Store.Distinct.{Distinct, same_id, Distinct-unique}
use kan_pad.Store.Entities.{
  User, Project, Board, BoardColumn, Card, Label, Checklist, ChecklistItem, Tag, Note, Db,
}
use kan_pad.Store.Repository.{Repository}
use kan_pad.Store.Repository.Documented.{IsDocumented}

pub record IsKeyed (db : Db) : Type 0 where
  pub users : Distinct User.id (Db.users db)
  pub projects : Distinct Project.id (Db.projects db)
  pub boards : Distinct Board.id (Db.boards db)
  pub columns : Distinct BoardColumn.id (Db.columns db)
  pub cards : Distinct Card.id (Db.cards db)
  pub labels : Distinct Label.id (Db.labels db)
  pub checklists : Distinct Checklist.id (Db.checklists db)
  pub checklist_items : Distinct ChecklistItem.id (Db.checklist_items db)
  pub tags : Distinct Tag.id (Db.tags db)
  pub notes : Distinct Note.id (Db.notes db)

module _ {Row : Type 0} (id : Row → ℕ) (r : Repository Row)
    (doc : IsDocumented (same_id id) r) where
  pub find_one-Member :
      (x : Row) (t : List Row)
      → Distinct id t
      → Member x t
      → r.find_one (λ y. id y == id x) t ≡ some x
  find_one-Member x t d m = elim (Option-cases (r.find_one (λ y. id y == id x) t)) [
    | inl e ↦
        let missing = doc.find_one-complete (λ y. id y == id x) t x e m in
        absurd (ground (arith, ==_refl (id x)))
    | inr (y, e) ↦
        let (my, py) = doc.find_one-sound (λ y. id y == id x) t y e in
        rw (e, Distinct-unique id y x t d my m ((==_iff _ _).0 py))
  ]

  pub find_one-id :
      (i : ℕ) (x : Row) (t : List Row)
      → r.find_one (λ y. id y == i) t ≡ some x
      → Member x t × (id x ≡ i)
  find_one-id i x t e =
      let (m, p) = doc.find_one-sound (λ y. id y == i) t x e in (m, (==_iff _ _).0 p)

module _ {Row : Type 0} {same : Row → Row → Bool} (r : Repository Row)
    (doc : IsDocumented same r) where
  -- A row that was added is found by a test that it alone passes.
  pub find_one-new :
      (p : Row → Bool) (x : Row) (t : List Row)
      → any p t ≡ false
      → p x ≡ true
      → r.find_one p (t ++ x ∷ []) ≡ some x
  find_one-new p x t h hx = elim (Option-cases (r.find_one p (t ++ x ∷ []))) [
    | inl e ↦
        let missing = doc.find_one-complete p (t ++ x ∷ []) x e (snoc-Member x t) in
        absurd (ground arith)
    | inr (y, e) ↦
        let (m, py) = doc.find_one-sound p (t ++ x ∷ []) y e in
        elim (Member-snoc y x t m) [
          | inl my ↦ let no = any-false p y t h my in absurd (ground arith)
          | inr q ↦ rw (e, q) refl
        ]
  ]
