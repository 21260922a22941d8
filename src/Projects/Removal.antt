-- ===== src/Projects/Removal.antt =====
-- `remove` of a project: what is linked to it.
use kan_pad.Base.{
  ℕ, ◌≡◌, refl, ◌≢◌, inl, inr, true, not, List, [], ◌∷◌, map, Member, map-Member, Member-map,
  Member-select, select-Member, select, length, arith, Option, some, ◌==◌, ==_refl, Bool-cases,
}
use kan_pad.Projects.{is_own, remove}
use kan_pad.Store.Action.{ok}
use kan_pad.Store.Cascade.{is_in, links_to, unlink_board, cascade_projects}
use kan_pad.Store.Distinct.{any-Member}
use kan_pad.Store.Entities.{Project, Board, Note, Db}
use kan_pad.Store.Laws.{IsLawful}
use kan_pad.Store.Repository.{Orm}

-- What `remove` leaves of the rows that are linked to the project.
pub record IsUnlinked (id : ℕ) (before after : Db) : Type 0 where
  -- no board and no note is linked to it
  pub boards : (b : Board) → Member b (Db.boards after) → Board.project_id b ≢ some id
  pub notes : (n : Note) → Member n (Db.notes after) → Note.project_id n ≢ some id
  -- each board stays, unchanged but for that link
  pub kept :
      (b : Board)
      → Member b (Db.boards before)
      → (c : Board) × Member c (Db.boards after)
        × (c ≡ record b { project_id = Board.project_id c })
  -- columns and cards stay
  pub columns : Db.columns after ≡ Db.columns before
  pub cards : Db.cards after ≡ Db.cards before

no_Member : (p : Project) (ps : List Project) → Member p ps → length ps ≢ 0
no_Member p [] m e = absurd m
no_Member p (q ∷ qs) m e = ground arith

module _ (o : Orm) (laws : IsLawful o) (db : Db) (project : Project)
    (here : Member project db.projects) where
  abbrev gone : List Project
  gone = select (is_own o project.id project.user_id) db.projects

  abbrev left : Db
  left = cascade_projects (map Project.id gone) (record db {
    projects = select (λ p. not (is_own o project.id project.user_id p)) db.projects;
  })

  there : Member project gone
  there =
      select-Member (is_own o project.id project.user_id) project db.projects here
        (ground (arith, ==_refl project.id, ==_refl project.user_id))

  listed : is_in (map Project.id gone) project.id ≡ true
  listed =
      any-Member (λ j. project.id == j) project.id (map Project.id gone)
        (Member-map Project.id project gone there) (==_refl project.id)

  some_gone : length gone ≢ 0
  some_gone e = no_Member project gone there e

  linked : (i : Option ℕ) → i ≡ some project.id → links_to (map Project.id gone) i ≡ true
  linked i e = rw (e, listed) refl

  left-IsUnlinked : IsUnlinked project.id db left
  unfolding cascade_projects
  left-IsUnlinked = record {
    boards = λ b m e.
        let (x, mx, q) = map-Member (unlink_board (map Project.id gone)) b db.boards m in
        elim (Bool-cases (links_to (map Project.id gone) x.project_id)) [
          | inl h ↦ absurd (ground (arith, e, q, h))
          | inr h ↦
              let yes = linked x.project_id (ground (arith, e, q, h)) in
              absurd (ground (arith, yes, h))
        ];
    notes = λ n m e.
        let (_, kept) =
          Member-select (λ n. not (links_to (map Project.id gone) (Note.project_id n))) n db.notes
            m in
        let yes = linked n.project_id e in absurd (ground (arith, yes, kept));
    kept = λ b m. (
      unlink_board (map Project.id gone) b,
      Member-map (unlink_board (map Project.id gone)) b db.boards m,
      refl,
    );
    columns = refl;
    cards = refl;
  }

  -- The user of a project removes it: `remove` succeeds; no board and no note is linked to it any more;
  -- its boards stay, unchanged but for the link, with all columns and cards.
  pub remove-IsUnlinked :
      (after : Db) × (remove o project.id project.user_id db ≡ (ok tt, after))
      × IsUnlinked project.id db after
  unfolding remove
  remove-IsUnlinked =
      let deleted = laws.projects.delete_lem (is_own o project.id project.user_id) db.projects in
      (left, ground (arith, deleted, some_gone), left-IsUnlinked)
