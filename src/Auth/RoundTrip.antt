-- ===== src/Auth/RoundTrip.antt =====
-- Registering and logging in.
use kan_pad.Base.{
  ℕ, ap, sym, ◌≡◌, refl, inl, inr, Bool, true, some, List, [], ◌∷◌, arith, any-none, Bool-cases,
  Option-cases,
}
use kan_pad.Base.Text.{Text, codes}
use kan_pad.Auth.Service.{
  is_registration_enabled, AuthEnv, RegisterDto, UserInfo, normalize, create_user, register_user,
  register, login_user, login,
}
use kan_pad.Auth.Session.{Session}
use kan_pad.Labels.{insert_label, insert_labels, seed_default_labels, default_labels}
use kan_pad.Store.Action.{ok, Result-cases}
use kan_pad.Store.Entities.{Color, User, Db}
use kan_pad.Store.Keyed.{find_one-new}
use kan_pad.Store.Laws.{IsLawful}
use kan_pad.Store.Repository.{Orm, Generated, DbFault}
use kan_pad.Users.{find_by_email, create}

module _ (o : Orm) where
  insert_labels-users :
      (user_id : ℕ) (labels : List (Text × Color)) (db : Db)
      → Db.users (insert_labels o user_id labels db).1 ≡ db.users
  unfolding insert_labels
  insert_labels-users user_id [] db = refl
  insert_labels-users user_id ((name, color) ∷ more) db =
      ground (arith, insert_labels-users user_id more (insert_label o user_id name color db).1)

module _ (o : Orm) (laws : IsLawful o) where
  seed_default_labels-users :
      (user_id : ℕ) (db : Db) → Db.users (seed_default_labels o user_id db).1 ≡ db.users
  unfolding seed_default_labels
  seed_default_labels-users user_id db = ground (
    arith,
    insert_labels-users o user_id default_labels db,
    laws.rollback_lem db (insert_labels o user_id default_labels db).1,
  )

  -- a user who was registered is found by the address
  create_user-found :
      (env : AuthEnv) (salt : ℕ) (dto : RegisterDto) (u : User) (db : Db)
      → (register_user o env salt dto db).0 ≡ ok u
      → (u.password ≡ env.hash salt 10 dto.password)
        × (o.users.find_one
              (λ v. o.collate (normalize o env dto.email) (User.email v))
              (Db.users (register_user o env salt dto db).1)
            ≡ some u)
  unfolding register_user create_user find_by_email create
  create_user-found env salt dto u db h =
      let p : User → Bool = λ v. o.collate (normalize o env dto.email) (User.email v) in
      let made : Generated → User = λ g. record {
        id = g.id;
        email = normalize o env dto.email;
        password = env.hash salt 10 dto.password;
        role = codes "user";
      } in
      elim (Bool-cases (is_registration_enabled o env)) [
        | inr r ↦ absurd (ground (arith, r))
        | inl r ↦ elim (Option-cases (o.users.find_one p db.users)) [
          | inr (v, e) ↦ absurd (ground (arith, r, e))
          | inl e ↦ elim (Option-cases (o.user_fault db)) [
            | inr (DbFault.dup_entry, q) ↦ absurd (ground (arith, r, e, q))
            | inr (DbFault.other, q) ↦ absurd (ground (arith, r, e, q))
            | inl q ↦
                let (g, inserted, _, _) = laws.new_users.insert_lem made db.users in
                let unused =
                  any-none p db.users (λ v m. laws.users.find_one-complete p db.users v e m) in
                let found =
                  find_one-new o.users laws.users p (made g) db.users unused
                    (laws.collate_refl (normalize o env dto.email)) in
                let same : made g ≡ u = ground (arith, r, e, q, inserted) in
                (ap User.password (sym same), ground (arith, r, e, q, inserted, found, same))
          ]
        ]
      ]

  -- Whoever has registered can log in with the same address and password, if bcrypt accepts a password
  -- against its own hash: `login` answers what `register` did and writes the same session.
  pub register-login :
      (env : AuthEnv) (salt : ℕ) (dto : RegisterDto) (before after : Session) (info : UserInfo)
      (db db' : Db)
      → env.compare dto.password (env.hash salt 10 dto.password) ≡ true
      → register o env salt dto before db ≡ (ok info, after, db')
      → (other : Session)
      → login o env (record { email = dto.email; password = dto.password }) other db'
        ≡ (ok info, after, db')
  unfolding register login login_user find_by_email
  register-login env salt dto before after info db db' accepted done other =
      elim (Result-cases (register_user o env salt dto db).0) [
        | inl (e, r) ↦ absurd (ground (arith, r))
        | inr (u, r) ↦
            let (stored, found) = create_user-found env salt dto u db r in
            let left = (register_user o env salt dto db).1 in
            let kept = seed_default_labels-users u.id left in
            elim (Result-cases (seed_default_labels o u.id left).0) [
              | inl (e, s) ↦ absurd (ground (arith, r, s))
              | inr (labels, s) ↦
                  let same : (seed_default_labels o u.id left).1 ≡ db' = ground (arith, r, s) in
                  let there : o.users.find_one
                        (λ v. o.collate (normalize o env dto.email) (User.email v)) (Db.users db')
                      ≡ some u =
                    rw (← same) (rw kept found) in
                  ground (arith, r, s, there, stored, accepted)
            ]
      ]
