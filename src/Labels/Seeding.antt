-- ===== src/Labels/Seeding.antt =====
-- The default labels.
use kan_pad.Base.{
  ℕ, ap, ◌∙◌, sym, ◌≡◌, refl, ◌≢◌, ◌⊎◌, inl, inr, List, [], ◌∷◌, ◌++◌, map, length, length-Permᴰ,
  select, select-append, append-nil, append-append, arith, ◌==◌, ==_refl,
}
use kan_pad.Base.Text.{Text}
use kan_pad.Labels.{default_labels, insert_labels, seed_default_labels}
use kan_pad.Store.Action.{ok, ◌>>◌, >>=-ok}
use kan_pad.Store.Entities.{Color, Label, Db}
use kan_pad.Store.Laws.{IsLawful}
use kan_pad.Store.Repository.{Orm}

abbrev pub name_and_color : Label → Text × Color
name_and_color l = (l.name, l.color)

abbrev pub labels_in : ℕ → Db → List Label
labels_in user_id db = select (λ l. Label.user_id l == user_id) db.labels

List-cases : (ls : List Label) → (ls ≡ []) ⊎ (length ls ≢ 0)
List-cases [] = inl refl
List-cases (l ∷ ls) = inr (λ e. ground arith)

no_six : (added : List Label) → length added ≡ 0 → map name_and_color added ≢ default_labels
no_six [] e h = absurd (ground arith)
no_six (l ∷ ls) e h = absurd (ground arith)

module _ (o : Orm) (laws : IsLawful o) (user_id : ℕ) where
  insert_labels-added :
      (labels : List (Text × Color)) (db : Db)
      → (added : List Label) × (insert_labels o user_id labels db
          ≡ (ok added, record db { labels = db.labels ++ added }))
        × (map name_and_color added ≡ labels)
        × (select (λ l. Label.user_id l == user_id) added ≡ added)
  unfolding insert_labels
  insert_labels-added [] db =
      ([], ap (λ t. (ok [], record db { labels = t })) (sym (append-nil db.labels)), refl, refl)
  insert_labels-added ((name, color) ∷ more) db =
      let (g, inserted, _, _) =
        laws.new_labels.insert_lem
          (λ g. record { id = g.id; name = name; color = color; user_id = user_id }) db.labels in
      let label : Label = record { id = g.id; name = name; color = color; user_id = user_id } in
      let (rest, run, names, own) =
        insert_labels-added more (record db { labels = db.labels ++ label ∷ [] }) in
      (
        label ∷ rest,
        ground (arith, inserted, run, append-append db.labels label rest),
        ap (λ ns. (name, color) ∷ ns) names,
        ground (arith, own, ==_refl user_id),
      )

  seed_default_labels-kept :
      (db : Db)
      → length (labels_in user_id db) ≢ 0
      → (found : List Label) × (seed_default_labels o user_id db ≡ (ok found, db))
  unfolding seed_default_labels
  seed_default_labels-kept db h =
      let n = length-Permᴰ (laws.labels.find-Permᴰ (λ l. Label.user_id l == user_id) db.labels) in
      (o.labels.find (λ l. Label.user_id l == user_id) db.labels, ground (arith, n))

  -- A user without labels gets the default labels, in their order.
  pub seed_default_labels-fresh :
      (db : Db)
      → labels_in user_id db ≡ []
      → (added : List Label) × (seed_default_labels o user_id db
          ≡ (ok added, record db { labels = db.labels ++ added }))
        × (labels_in user_id (record db { labels = db.labels ++ added }) ≡ added)
        × (map name_and_color added ≡ default_labels)
  unfolding seed_default_labels
  seed_default_labels-fresh db empty =
      let (added, run, names, own) = insert_labels-added default_labels db in
      let n = length-Permᴰ (laws.labels.find-Permᴰ (λ l. Label.user_id l == user_id) db.labels) in
      let n0 : length (o.labels.find (λ l. Label.user_id l == user_id) db.labels) ≡ 0 =
        n ∙ ap length empty in
      (
        added,
        ground (arith, n0, run),
        select-append (λ l. Label.user_id l == user_id) db.labels added ∙ rw (empty, own) refl,
        names,
      )

  -- Seeding twice is seeding once, whatever labels the user had.
  pub seed_default_labels-twice :
      (db : Db)
      → ((seed_default_labels o user_id >> seed_default_labels o user_id) db).1
        ≡ (seed_default_labels o user_id db).1
  seed_default_labels-twice db = elim (List-cases (labels_in user_id db)) [
    | inl empty ↦
        let (added, run, own, names) = seed_default_labels-fresh db empty in
        let after = record db { labels = db.labels ++ added } in
        let some_there : length (labels_in user_id after) ≢ 0 =
          λ e. no_six added (sym (ap length own) ∙ e) names in
        ap (λ r. r.1)
          (>>=-ok (seed_default_labels o user_id) (λ _. seed_default_labels o user_id) db run)
        ∙ ap (λ r. r.1) (seed_default_labels-kept after some_there).1
        ∙ sym (ap (λ r. r.1) run)
    | inr full ↦
        let kept = (seed_default_labels-kept db full).1 in
        ap (λ r. r.1)
          (>>=-ok (seed_default_labels o user_id) (λ _. seed_default_labels o user_id) db kept)
  ]
