-- ===== src/Labels.antt =====
-- backend/src/labels/labels.service.ts: `LabelsService`, method by method.
pub mod Names
pub mod Seeding
use kan_pad.Base.{
  ℕ, Bool, not, ◌&&◌, List, [], ◌∷◌, Option, none, some, length, get_or, ◌==◌, if◌then◌else◌,
}
use kan_pad.Base.Int.{pos}
use kan_pad.Base.Text.{Text, codes, is_empty, trim}
use kan_pad.Store.Action.{
  Action, ok, bad_request, not_found, forbidden, conflict, throw, gets, pure, throw_if, or_throw,
  modify, transaction, ◌>>=◌, ◌>>◌,
}
use kan_pad.Store.Cascade.{cascade_labels}
use kan_pad.Store.Entities.{Color, red, orange, yellow, green, blue, purple, Label}
use kan_pad.Store.Relations.{label_at}
use kan_pad.Store.Repository.{Orm, asc}

pub record CreateLabelDto : Type 0 where
  pub name : Text
  pub color : Color

pub record UpdateLabelDto : Type 0 where
  pub name : Option Text
  pub color : Option Color

abbrev pub default_labels : List (Text × Color)
default_labels =
    (codes "Urgent", red)
    ∷ (codes "Important", orange)
    ∷ (codes "In Progress", yellow)
    ∷ (codes "Done", green)
    ∷ (codes "Bug", blue)
    ∷ (codes "Feature", purple)
    ∷ []

module _ (o : Orm) where
  abbrev labels_of_user : ℕ → Action (List Label)
  labels_of_user user_id = gets (λ db.
      o.labels.find_ordered asc (λ l. pos (Label.id l)) (λ l. Label.user_id l == user_id) db.labels)

  abbrev pub insert_label : ℕ → Text → Color → Action Label
  insert_label user_id name color db =
      let (label, labels) =
        o.labels.insert (λ g. record { id = g.id; name = name; color = color; user_id = user_id })
          db.labels in
      (ok label, record db { labels = labels })

  -- `repo.save(defaultLabels.map(…))`
  unfoldable pub insert_labels : ℕ → List (Text × Color) → Action (List Label)
  insert_labels user_id [] = gets (λ _. [])
  insert_labels user_id ((name, color) ∷ more) =
      let rest = insert_labels user_id more in
      insert_label user_id name color >>= λ label. rest >>= λ labels. gets (λ _. label ∷ labels)

  unfoldable pub seed_default_labels : ℕ → Action (List Label)
  seed_default_labels user_id = transaction o (do
    existing ← gets (λ db. o.labels.find (λ l. Label.user_id l == user_id) db.labels)
    let fresh = insert_labels user_id default_labels
    if length existing == 0 then fresh else pure existing)

  unfoldable pub find_all : ℕ → Action (List Label)
  find_all user_id = do
    labels ← labels_of_user user_id
    if length labels == 0 then seed_default_labels user_id else pure labels

  unfoldable pub find_all_raw : ℕ → Action (List Label)
  find_all_raw user_id = labels_of_user user_id

  -- `findOne({ where: { user_id: userId, name: trimmedName } })`
  abbrev pub label_named : ℕ → Text → Action (Option Label)
  label_named user_id name = gets (λ db.
      o.labels.find_one (λ l. Label.user_id l == user_id && o.collate name (Label.name l))
        db.labels)

  unfoldable pub create : ℕ → CreateLabelDto → Action Label
  create user_id dto = do
    let trimmed = trim dto.name
    throw_if (bad_request "Label name cannot be empty") (is_empty trimmed)
    existing ← label_named user_id trimmed
    elim existing [
      | none ↦ insert_label user_id trimmed dto.color
      | some _ ↦ throw (conflict "Label name already exists")
    ]

  unfoldable pub find_label_by_id : ℕ → ℕ → Action Label
  find_label_by_id id user_id = do
    label ← label_at o id >>= or_throw (not_found "Label not found")
    throw_if (forbidden "Access denied") (not (Label.user_id label == user_id))
    pure label

  unfoldable pub find_by_id : ℕ → Action (Option Label)
  find_by_id id = label_at o id

  -- `existing && existing.id !== id`
  abbrev taken_by_other : ℕ → Option Label → Bool
  taken_by_other id none = Bool.false
  taken_by_other id (some l) = not (l.id == id)

  -- the branch of `update` on `dto.name`: the name that the label is to have
  unfoldable pub choose_name : ℕ → ℕ → Text → Option Text → Action Text
  choose_name id user_id old none = gets (λ _. old)
  choose_name id user_id old (some name) = do
    let trimmed = trim name
    throw_if (bad_request "Label name cannot be empty") (is_empty trimmed)
    existing ← label_named user_id trimmed
    throw_if (conflict "Label name already exists") (taken_by_other id existing)
    gets (λ _. trimmed)

  unfoldable pub update : ℕ → ℕ → UpdateLabelDto → Action Label
  update id user_id dto = do
    label ← find_label_by_id id user_id
    name ← choose_name id user_id label.name dto.name
    let changed = record label { name = name; color = get_or dto.color label.color }
    modify (λ db. record db { labels = o.labels.save changed db.labels })
    pure changed

  unfoldable pub remove : ℕ → ℕ → Action (Unit {0})
  remove id user_id = do
    label ← find_label_by_id id user_id
    modify (λ db.
        cascade_labels (label.id ∷ []) (record db { labels = o.labels.remove label db.labels }))
