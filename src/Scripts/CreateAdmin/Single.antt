-- ===== src/Scripts/CreateAdmin/Single.antt =====
-- The administrator that create-admin.ts adds.
use mathlib.Core.Path.{subst}
use kan_pad.Base.{
  ◌&&◌, ℕ, ◌≡◌, ◌⊎◌, refl, ap, sym, ◌∙◌, inl, inr, Bool, true, false, List, [], ◌∷◌, ◌++◌, any,
  any-none, select, select-append, arith, some, Option-cases, Bool-cases,
}
use kan_pad.Base.Text.{Text, codes}
use kan_pad.Auth.Service.{AuthEnv, normalize, login, login_user, info_of, session_of}
use kan_pad.Auth.Session.{Session}
use kan_pad.Scripts.CreateAdmin.{
  CliHost, CliResult, created, is_admin, is_email, is_strong, parse_args, CliArgs, is_unset,
  given_or, add_admin, check_and_add, main_internal,
}
use kan_pad.Store.Action.{ok}
use kan_pad.Store.Entities.{User, Db}
use kan_pad.Store.Keyed.{find_one-new}
use kan_pad.Store.Laws.{IsLawful}
use kan_pad.Store.Repository.{Orm, Generated}
use kan_pad.Users.{find_by_email}

module _ {A : Type 0} where
  select-nothing : (p : A → Bool) (t : List A) → any p t ≡ false → select p t ≡ []
  select-nothing p [] h = refl
  select-nothing p (x ∷ t) h = ground (arith, select-nothing p t)

module _ (o : Orm) where
  -- nothing happened, or a table without an administrator has got one
  abbrev pub IsSingle : Db → CliResult × Db → Type 0
  IsSingle db (result, db') =
      (db' ≡ db)
      ⊎ ((result ≡ created)
          × (any (is_admin o) db.users ≡ false)
          × (u : User) × (db' ≡ record db { users = db.users ++ u ∷ [] })
          × (select (is_admin o) db'.users ≡ u ∷ [])
          × (is_email u.email ≡ true))

module _ (o : Orm) (laws : IsLawful o) (host : CliHost) where
  -- what an administrator is, and that the table had none
  added :
      (salt : ℕ) (email password : Text) (db : Db)
      → (add_admin o host salt email password db).0 ≡ created
      → (u : User) × (u.email ≡ email)
        × (u.password ≡ host.hash salt 10 password)
        × (u.role ≡ codes "admin")
        × (any (is_admin o) db.users ≡ false)
        × ((add_admin o host salt email password db).1 ≡ record db { users = db.users ++ u ∷ [] })
  unfolding add_admin
  added salt email password db h =
      let make : Generated → User = λ g. record {
        id = g.id;
        email = email;
        password = host.hash salt 10 password;
        role = codes "admin";
      } in
      let (g, inserted, _, _) = laws.new_users.insert_lem make db.users in
      elim (Option-cases (o.users.find_one (is_admin o) db.users)) [
        | inr (u, e) ↦ absurd (ground (arith, h, e))
        | inl e ↦ elim (Option-cases (o.user_fault db)) [
          | inr (fault, f) ↦ absurd (ground (arith, h, e, f))
          | inl f ↦
              let unused =
                any-none (is_admin o) db.users
                  (λ v m. laws.users.find_one-complete (is_admin o) db.users v e m) in
              (make g, refl, refl, refl, unused, ground (arith, e, f, inserted))
        ]
      ]

  unchanged :
      (salt : ℕ) (email password : Text) (db : Db)
      → ((add_admin o host salt email password db).0 ≡ created)
        ⊎ ((add_admin o host salt email password db).1 ≡ db)
  unfolding add_admin
  unchanged salt email password db = elim (Option-cases (o.users.find_one (is_admin o) db.users)) [
    | inr (u, e) ↦ inr (ground (arith, e))
    | inl e ↦ elim (Option-cases (o.user_fault db)) [
      | inr (fault, f) ↦ inr (ground (arith, e, f))
      | inl f ↦ inl (ground (arith, e, f))
    ]
  ]

  checked :
      (salt : ℕ) (email password : Text) (db : Db)
      → is_email email ≡ true
      → IsSingle o db (add_admin o host salt email password db)
  checked salt email password db valid = elim (unchanged salt email password db) [
    | inr kept ↦ inl kept
    | inl done ↦
        let (u, address, _, role, unused, e) = added salt email password db done in
        let users : Db.users (add_admin o host salt email password db).1 ≡ db.users ++ u ∷ [] =
          ap Db.users e in
        let admin : is_admin o u ≡ true = rw (is_admin, role) (laws.collate_refl (codes "admin")) in
        let before = select-nothing (is_admin o) db.users unused in
        let after = select-append (is_admin o) db.users (u ∷ []) in
        inr (done, unused, u, e, rw users (ground (arith, admin, before, after)), rw address valid)
  ]

  guarded-IsSingle :
      (salt : ℕ) (email password : Text) (db : Db)
      → IsSingle o db (check_and_add o host salt email password db)
  unfolding check_and_add
  guarded-IsSingle salt email password db = elim (Bool-cases (is_email email)) [
    | inr p ↦ inl (ground (arith, p))
    | inl p ↦ elim (Bool-cases (is_strong password)) [
      | inr q ↦ inl (ground (arith, p, q))
      | inl q ↦ elim (Bool-cases (CliHost.connects host)) [
        | inr c ↦ inl (ground (arith, p, q, c))
        | inl c ↦
            let same : check_and_add o host salt email password db
                ≡ add_admin o host salt email password db =
              ground (arith, p, q, c) in
            subst (IsSingle o db) (sym same) (checked salt email password db p)
      ]
    ]
  ]

  -- Whatever the arguments and the answers, mainInternal leaves the tables as they were, or it
  -- succeeds, in a table without an administrator, and adds the only one, whose address passes the
  -- check.
  pub main_internal-IsSingle :
      (salt : ℕ) (args : List Text) (db : Db) → IsSingle o db (main_internal o host salt args db)
  unfolding main_internal
  main_internal-IsSingle salt args db =
      let parsed = parse_args args in
      elim (Bool-cases (CliArgs.help parsed)) [
        | inl h ↦ inl (ground (arith, h))
        | inr h ↦ elim (Bool-cases (is_unset host.db_host && is_unset host.db_port)) [
          | inl n ↦ inl (ground (arith, h, n))
          | inr n ↦
              let email = given_or (CliArgs.email parsed) host.prompt_email in
              let password = given_or (CliArgs.password parsed) host.prompt_password in
              let same : main_internal o host salt args db
                  ≡ check_and_add o host salt email password db =
                ground (arith, h, n) in
              subst (IsSingle o db) (sym same) (guarded-IsSingle salt email password db)
        ]
      ]

  -- The administrator whom the script added can log in with the same address and password, if the
  -- address is in lower case without outer white space, no user had it before, and bcrypt accepts a
  -- password against its own hash.
  pub check_and_add-login :
      (env : AuthEnv) (salt : ℕ) (email password : Text) (db db' : Db)
      → env.compare password (host.hash salt 10 password) ≡ true
      → normalize o env email ≡ email
      → any (λ u. o.collate email (User.email u)) db.users ≡ false
      → check_and_add o host salt email password db ≡ (created, db')
      → (other : Session)
      → (u : User) × (u.role ≡ codes "admin")
        × (u.email ≡ email)
        × (login o env (record { email = email; password = password }) other db'
            ≡ (ok (info_of u), session_of u, db'))
  unfolding check_and_add login login_user find_by_email
  check_and_add-login env salt email password db db' accepted normal fresh done other =
      let same : (add_admin o host salt email password db).0 ≡ created = ground (arith, done) in
      let left : (add_admin o host salt email password db).1 ≡ db' = ground (arith, done) in
      let (u, address, stored, role, _, e) = added salt email password db same in
      let found =
        find_one-new o.users laws.users (λ v. o.collate email (User.email v)) u db.users fresh
          (rw address (laws.collate_refl email)) in
      let users : db'.users ≡ db.users ++ u ∷ [] = ap Db.users (sym left ∙ e) in
      let there : o.users.find_one (λ v. o.collate (normalize o env email) (User.email v)) db'.users
          ≡ some u =
        rw (normal, users) found in
      (u, role, address, ground (arith, there, accepted, stored))
