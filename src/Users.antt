-- ===== src/Users.antt =====
-- backend/src/users/users.service.ts: `UsersService`, method by method.
use kan_pad.Base.{ℕ, Option, none, some, ◌==◌}
use kan_pad.Base.Text.{Text, codes}
use kan_pad.Store.Action.{Action, gets}
use kan_pad.Store.Entities.{User, Db}
use kan_pad.Store.Repository.{Orm, DbFault}

pub record CreateUserDto : Type 0 where
  pub email : Text
  pub password : Text

-- `create` saves the user, or throws what the database reports.
pub data Saved : Type 0 where
  created : User → Saved
  failed : DbFault → Saved

module _ (o : Orm) where
  unfoldable pub find_by_id : ℕ → Action (Option User)
  find_by_id id = gets (λ db. o.users.find_one (λ u. User.id u == id) db.users)

  unfoldable pub find_by_email : Text → Action (Option User)
  find_by_email email = gets (λ db. o.users.find_one (λ u. o.collate email (User.email u)) db.users)

  abbrev insert_user : CreateUserDto → Db → Saved × Db
  insert_user dto db =
      let (user, users) =
        o.users.insert
          (λ g. record {
            id = g.id;
            email = dto.email;
            password = dto.password;
            role = codes "user";
          })
          db.users in
      (created user, record db { users = users })

  unfoldable pub create : CreateUserDto → Db → Saved × Db
  create dto db = elim (o.user_fault db) [
    | none ↦ insert_user dto db
    | some fault ↦ (failed fault, db)
  ]
