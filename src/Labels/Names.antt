-- ===== src/Labels/Names.antt =====
-- The names of a user's labels: no two of them are equal to the database.
use kan_pad.Base.{
  ℕ, ap, ◌∙◌, sym, ◌≡◌, refl, inl, inr, Bool, true, false, ◌&&◌, Option, none, some, get_or, map,
  Member, arith, Bool-cases, Option-cases, ◌==◌, ==_iff, if◌then◌else◌, Member-snoc, map-Member,
}
use kan_pad.Base.Text.{Text, trim, is_empty}
use kan_pad.Labels.{CreateLabelDto, UpdateLabelDto, create, update, find_label_by_id, choose_name}
use kan_pad.Store.Action.{ok, Result-cases}
use kan_pad.Store.Distinct.{same_id, any-same}
use kan_pad.Store.Entities.{Label, Color, Db}
use kan_pad.Store.Keyed.{find_one-id}
use kan_pad.Store.Laws.{IsLawful}
use kan_pad.Store.Repository.{Orm}

-- Labels of one user whose names are equal by the collation are one label.
abbrev pub IsNamed : Orm → Db → Type 0
IsNamed o db =
    (l m : Label)
    → Member l db.labels
    → Member m db.labels
    → l.user_id ≡ m.user_id
    → o.collate l.name m.name ≡ true
    → l.id ≡ m.id

module _ (o : Orm) (laws : IsLawful o) (db : Db) (named : IsNamed o db) (user_id : ℕ) where
  abbrev holder : Text → Label → Bool
  holder name l = Label.user_id l == user_id && o.collate name (Label.name l)

  -- Where every name of a user is used once, that remains so after `create`, whatever it answers.
  pub create-IsNamed : (dto : CreateLabelDto) → IsNamed o (create o user_id dto db).1
  unfolding create
  create-IsNamed dto = elim (Bool-cases (is_empty (trim dto.name))) [
    | inl h ↦ rw h named
    | inr h ↦ elim (Option-cases (o.labels.find_one (holder (trim dto.name)) db.labels)) [
      | inr (l, e) ↦ rw (h, e) named
      | inl e ↦
          let (g, inserted, _, _) =
            laws.new_labels.insert_lem
              (λ g. record {
                id = g.id;
                name = trim dto.name;
                color = dto.color;
                user_id = user_id;
              })
              db.labels in
          let free = laws.labels.find_one-complete (holder (trim dto.name)) db.labels in
          rw (h, e, inserted)
            (λ l m ml mm u c. elim (Member-snoc l _ db.labels ml) [
              | inl nl ↦ elim (Member-snoc m _ db.labels mm) [
                | inl nm ↦ named l m nl nm u c
                | inr q ↦ absurd (ground (arith, free l e nl, q, laws.collate_sym l.name m.name c))
              ]
              | inr p ↦ elim (Member-snoc m _ db.labels mm) [
                | inl nm ↦ absurd (ground (arith, free m e nm, p))
                | inr q ↦ ap Label.id p ∙ sym (ap Label.id q)
              ]
            ])
    ]
  ]

  -- no other label of the user has the name of `changed`
  abbrev Free : Label → Type 0
  Free changed =
      (m : Label)
      → Member m db.labels
      → (m.id == changed.id) ≡ false
      → m.user_id ≡ changed.user_id
      → o.collate changed.name m.name ≡ true
      → ⊥

  -- the row that a save leaves
  abbrev saved_row : Label → Label → Label
  saved_row changed l = if same_id Label.id changed l then changed else l

  saved-IsNamed :
      (changed : Label)
      → Free changed
      → IsNamed o (record db { labels = map (saved_row changed) db.labels })
  saved-IsNamed changed free l m ml mm u c =
      let (x, mx, ex) = map-Member (saved_row changed) l db.labels ml in
      let (y, my, ey) = map-Member (saved_row changed) m db.labels mm in
      elim (Bool-cases (changed.id == x.id)) [
        | inl h ↦ elim (Bool-cases (changed.id == y.id)) [
          | inl k ↦ ground (arith, ex, ey)
          | inr k ↦
              absurd (free y my (ground arith) (ground (arith, ex, ey)) (ground (arith, ex, ey)))
        ]
        | inr h ↦ elim (Bool-cases (changed.id == y.id)) [
          | inl k ↦ absurd (
              free x mx (ground arith) (ground (arith, ex, ey))
                (laws.collate_sym x.name changed.name (ground (arith, ex, ey))))
          | inr k ↦ let kept = named x y mx my in ground (arith, ex, ey)
        ]
      ]

  choose_name-Free :
      (label : Label) (wanted : Option Text) (name : Text) (color : Color)
      → Member label db.labels
      → label.user_id ≡ user_id
      → (choose_name o label.id user_id label.name wanted db).0 ≡ ok name
      → Free (record label { name = name; color = color })
  unfolding choose_name
  choose_name-Free label none name color ml u h m mm k v c =
      let kept = named label m ml mm in ground arith
  choose_name-Free label (some wanted) name color ml u h m mm k v c =
      elim (Bool-cases (is_empty (trim wanted))) [
        | inl p ↦ ground (arith, p)
        | inr p ↦ elim (Option-cases (o.labels.find_one (holder (trim wanted)) db.labels)) [
          | inl e ↦
              let free = laws.labels.find_one-complete (holder (trim wanted)) db.labels m e mm in
              ground arith
          | inr (l, e) ↦
              let (there, holds) =
                laws.labels.find_one-sound (holder (trim wanted)) db.labels l e in
              elim (Bool-cases (l.id == label.id)) [
                | inr q ↦ ground (arith, p, e, q)
                | inl q ↦
                    let same : trim wanted ≡ name = ground (arith, p, e, q) in
                    let back = laws.collate_sym (trim wanted) l.name (ground arith) in
                    let both = laws.collate_trans l.name (trim wanted) m.name back (rw same c) in
                    let kept = named l m there mm (ground arith) both in ground arith
              ]
        ]
      ]

  choose_name-reads :
      (id : ℕ) (old : Text) (wanted : Option Text) → (choose_name o id user_id old wanted db).1 ≡ db
  unfolding choose_name
  choose_name-reads id old none = refl
  choose_name-reads id old (some wanted) = ground arith

  -- Where every name of a user is used once, that remains so after `update`, whatever it answers.
  pub update-IsNamed : (id : ℕ) (dto : UpdateLabelDto) → IsNamed o (update o id user_id dto db).1
  unfolding update find_label_by_id
  update-IsNamed id dto =
      elim (Option-cases (o.labels.find_one (λ l. Label.id l == id) db.labels)) [
        | inl e ↦
            let same : (update o id user_id dto db).1 ≡ db = ground (arith, e) in rw same named
        | inr (label, e) ↦
            let (there, own_id) = find_one-id Label.id o.labels laws.labels id label db.labels e in
            elim (Bool-cases (label.user_id == user_id)) [
              | inr h ↦
                  let same : (update o id user_id dto db).1 ≡ db = ground (arith, e, h) in
                  rw same named
              | inl h ↦ elim (Result-cases (choose_name o id user_id label.name dto.name db).0) [
                | inl (x, r) ↦
                    let same : (update o id user_id dto db).1 ≡ db =
                      ground (arith, e, h, r, choose_name-reads id label.name dto.name) in
                    rw same named
                | inr (name, r) ↦
                    let changed = record label {
                      name = name;
                      color = get_or dto.color label.color;
                    } in
                    let saved =
                      laws.labels.save_present changed db.labels
                        (any-same Label.id label db.labels there) in
                    let same : (update o id user_id dto db).1
                        ≡ record db { labels = map (saved_row changed) db.labels } =
                      ground (arith, e, h, r, choose_name-reads id label.name dto.name, saved) in
                    rw same (
                      saved-IsNamed changed (
                        choose_name-Free label dto.name name changed.color there ((==_iff _ _).0 h)
                          (rw own_id r)))
              ]
            ]
      ]
