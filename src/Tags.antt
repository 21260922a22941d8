-- ===== src/Tags.antt =====
-- backend/src/tags/tags.service.ts: `TagsService`, method by method.
pub mod Names
use kan_pad.Base.{ℕ, not, ◌&&◌, ◌||◌, List, [], ◌∷◌, Option, none, some, get_or, is_some, ◌==◌}
use kan_pad.Base.Text.{Text, codes}
use kan_pad.Store.Action.{
  Action, ok, not_found, forbidden, conflict, throw, gets, pure, throw_if, or_throw, modify, when,
  ◌>>=◌, ◌>>◌,
}
use kan_pad.Store.Cascade.{cascade_tags}
use kan_pad.Store.Entities.{Tag}
use kan_pad.Store.Relations.{tag_at}
use kan_pad.Store.Repository.{Orm}

pub record CreateTagDto : Type 0 where
  pub name : Text
  pub color : Option Text

pub record UpdateTagDto : Type 0 where
  pub name : Option Text
  pub color : Option Text

module _ (o : Orm) where
  abbrev pub insert_tag : ℕ → Text → Text → Action Tag
  insert_tag user_id name color db =
      let (tag, tags) =
        o.tags.insert (λ g. record { id = g.id; name = name; color = color; user_id = user_id })
          db.tags in
      (ok tag, record db { tags = tags })

  unfoldable pub create : ℕ → CreateTagDto → Action Tag
  create user_id dto = do
    existing ← gets (λ db.
        o.tags.find_one (λ t. o.collate dto.name (Tag.name t) && Tag.user_id t == user_id) db.tags)
    elim existing [
      | none ↦ insert_tag user_id dto.name (get_or dto.color (codes "teal"))
      | some _ ↦ throw (conflict "Tag with this name already exists")
    ]

  -- in the order of the names, by the collation of the database
  unfoldable pub find_all : ℕ → Action (List Tag)
  find_all user_id = gets (λ db. o.tags.find (λ t. Tag.user_id t == user_id) db.tags)

  unfoldable pub find_one : ℕ → ℕ → Action Tag
  find_one id user_id = do
    tag ← tag_at o id >>= or_throw (not_found "Tag not found")
    throw_if (forbidden "Access denied") (not (Tag.user_id tag == user_id))
    pure tag

  -- the row with `updateData` applied
  abbrev change_tag : UpdateTagDto → Tag → Tag
  change_tag dto t = record t { name = get_or dto.name t.name; color = get_or dto.color t.color }

  unfoldable pub update : ℕ → ℕ → UpdateTagDto → Action Tag
  update id user_id dto = do
    find_one id user_id
    when (is_some dto.name || is_some dto.color)
        (modify (λ db. record db { tags = o.tags.update id (change_tag dto) db.tags }))
    tag_at o id >>= or_throw (not_found "Tag not found after update")

  unfoldable pub remove : ℕ → ℕ → Action (Unit {0})
  remove id user_id = do
    tag ← find_one id user_id
    modify (λ db. cascade_tags (tag.id ∷ []) (record db { tags = o.tags.remove tag db.tags }))
