-- ===== src/Tags/Names.antt =====
-- The names of a user's tags: `create` keeps them different, `update` does not.
use kan_pad.Base.{
  ℕ, ap, ◌∙◌, sym, ◌≡◌, ◌≢◌, inl, inr, Bool, true, false, ◌&&◌, none, some, get_or, map, Member,
  Member-snoc, Member-map, arith, Option-cases, ◌==◌, ==_refl, if◌then◌else◌,
}
use kan_pad.Base.Text.{Text, codes}
use kan_pad.Store.Action.{ok}
use kan_pad.Store.Distinct.{Distinct-map}
use kan_pad.Store.Entities.{Tag, Db}
use kan_pad.Store.Keyed.{IsKeyed, find_one-Member}
use kan_pad.Store.Laws.{IsLawful}
use kan_pad.Store.Repository.{Orm}
use kan_pad.Tags.{CreateTagDto, UpdateTagDto, find_one, create, update}

-- Tags of one user whose names are equal by the collation are one tag.
abbrev pub IsNamed : Orm → Db → Type 0
IsNamed o db =
    (l m : Tag)
    → Member l db.tags
    → Member m db.tags
    → l.user_id ≡ m.user_id
    → o.collate l.name m.name ≡ true
    → l.id ≡ m.id

module _ (o : Orm) (laws : IsLawful o) (db : Db) where
  abbrev holder : ℕ → Text → Tag → Bool
  holder user_id name t = o.collate name (Tag.name t) && Tag.user_id t == user_id

  -- Where every name of a user is used once, that remains so after `create`, whatever it answers.
  pub create-tag-IsNamed :
      (user_id : ℕ) (dto : CreateTagDto) → IsNamed o db → IsNamed o (create o user_id dto db).1
  unfolding create
  create-tag-IsNamed user_id dto named =
      elim (Option-cases (o.tags.find_one (holder user_id dto.name) db.tags)) [
        | inr (l, e) ↦ rw e named
        | inl e ↦
            let (g, inserted, _, _) =
              laws.new_tags.insert_lem
                (λ g. record {
                  id = g.id;
                  name = dto.name;
                  color = get_or dto.color (codes "teal");
                  user_id = user_id;
                })
                db.tags in
            let free = laws.tags.find_one-complete (holder user_id dto.name) db.tags in
            rw (e, inserted)
              (λ l m ml mm u c. elim (Member-snoc l _ db.tags ml) [
                | inl nl ↦ elim (Member-snoc m _ db.tags mm) [
                  | inl nm ↦ named l m nl nm u c
                  | inr q ↦
                      absurd (ground (arith, free l e nl, q, laws.collate_sym l.name m.name c))
                ]
                | inr p ↦ elim (Member-snoc m _ db.tags mm) [
                  | inl nm ↦ absurd (ground (arith, free m e nm, p))
                  | inr q ↦ ap Tag.id p ∙ sym (ap Tag.id q)
                ]
              ])
      ]

-- the body of a request that renames a tag
abbrev pub rename_to : Text → UpdateTagDto
rename_to name = record { name = some name; color = none }

module _ (o : Orm) (laws : IsLawful o) (db : Db) (keyed : IsKeyed db) (tag other : Tag)
    (here : Member tag db.tags) (there : Member other db.tags) (apart : tag.id ≢ other.id)
    (one_user : tag.user_id ≡ other.user_id) where
  abbrev renamed : Tag → Tag
  renamed t = if t.id == tag.id then record t { name = other.name } else t

  -- A user with two tags can rename one to the name of the other: `update` succeeds, and two tags of
  -- the user then have one name.
  pub update-duplicates :
      (update o tag.id tag.user_id (rename_to other.name) db
        ≡ (ok (record tag { name = other.name }), record db { tags = map renamed db.tags }))
      × ¬ IsNamed o (record db { tags = map renamed db.tags })
  unfolding update find_one
  update-duplicates =
      let found = find_one-Member Tag.id o.tags laws.tags tag db.tags keyed.tags here in
      let updated = laws.new_tags.update_lem tag.id (λ t. record t { name = other.name }) db.tags in
      let m : Member (record tag { name = other.name }) (map renamed db.tags) =
        let k : Member (renamed tag) (map renamed db.tags) = Member-map renamed tag db.tags here in
        rw (==_refl tag.id) at k in
      let after =
        find_one-Member Tag.id o.tags laws.tags (record tag { name = other.name })
          (map renamed db.tags) (Distinct-map Tag.id renamed db.tags (λ t. ground arith) keyed.tags)
          m in
      let n : Member other (map renamed db.tags) =
        let k : Member (renamed other) (map renamed db.tags) =
          Member-map renamed other db.tags there in
        let differs : (other.id == tag.id) ≡ false = ground arith in rw differs at k in
      (
        ground (arith, found, updated, after, ==_refl tag.user_id),
        λ named. apart (
            named (record tag { name = other.name }) other m n one_user
              (laws.collate_refl other.name)),
      )
