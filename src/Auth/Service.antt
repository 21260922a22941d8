-- ===== src/Auth/Service.antt =====
-- backend/src/auth/auth.service.ts: `AuthService`, method by method.
use kan_pad.Base.{ℕ, Bool, true, not, Option, none, some, if◌then◌else◌}
use kan_pad.Base.Int.{pos}
use kan_pad.Base.Text.{Text, codes, text_eq, trim}
use kan_pad.Labels.{seed_default_labels}
use kan_pad.Store.Action.{
  Action, Result, ok, err, forbidden, conflict, unauthorized, internal_server_error, throw, gets,
  throw_if, ◌>>=◌, ◌>>◌,
}
use kan_pad.Store.Entities.{User, Db}
use kan_pad.Store.Repository.{Orm, DbFault}
use kan_pad.Users.{created, failed, find_by_id, find_by_email, create}
use kan_pad.Auth.Session.{Session, number, text}

-- What `AuthService` calls besides: bcryptjs, `toLowerCase` with the Unicode tables of the engine,
-- and the environment variable REGISTRATION_ENABLED.
pub record AuthEnv : Type 0 where
  -- `bcrypt.hash(password, rounds)`; the first number is the salt that is drawn
  pub hash : ℕ → ℕ → Text → Text
  -- `bcrypt.compare(password, hash)`
  pub compare : Text → Text → Bool
  pub to_lower_case : Text → Text
  pub registration_enabled : Option Text

-- class `RegisterDto`
pub record RegisterDto : Type 0 where
  pub email : Text
  pub password : Text

-- class `LoginDto`
pub record LoginDto : Type 0 where
  pub email : Text
  pub password : Text

-- `{id, email, role}`, as the service returns it
pub record UserInfo : Type 0 where
  pub id : ℕ
  pub email : Text
  pub role : Text

-- A method that writes the session too.
abbrev pub SessionAction : Type 0 → Type 0
SessionAction A = Session → Db → Result A × Session × Db

abbrev pub info_of : User → UserInfo
info_of u = record { id = u.id; email = u.email; role = u.role }

-- `session.userId = user.id; session.email = …; session.role = …`
abbrev pub session_of : User → Session
session_of u = record { user_id = number (pos u.id); email = text u.email; role = text u.role }

module _ (o : Orm) (env : AuthEnv) where
  -- `process.env.REGISTRATION_ENABLED !== 'false'`
  unfoldable pub is_registration_enabled : Bool
  is_registration_enabled = elim (env.registration_enabled) [
    | none ↦ true
    | some value ↦ not (text_eq value (codes "false"))
  ]

  -- `email.toLowerCase().trim()`
  unfoldable pub normalize : Text → Text
  normalize email = trim (env.to_lower_case email)

  -- the `try` of `register`
  unfoldable pub create_user : Text → Text → Action User
  create_user email password db =
      let (saved, db') = create o (record { email = email; password = password }) db in
      elim saved [
        | created user ↦ (ok user, db')
        | failed DbFault.dup_entry ↦ (err (conflict "Email already registered."), db')
        | failed DbFault.other ↦ (err internal_server_error, db')
      ]

  -- `register` up to where the session is written
  unfoldable pub register_user : ℕ → RegisterDto → Action User
  register_user salt dto = do
    throw_if (forbidden "Registration is currently closed.") (not is_registration_enabled)
    existing ← find_by_email o (normalize dto.email)
    elim existing [
      | none ↦ create_user (normalize dto.email) (env.hash salt 10 dto.password)
      | some _ ↦ throw (conflict "Email already registered.")
    ]

  unfoldable pub register : ℕ → RegisterDto → SessionAction UserInfo
  register salt dto session db =
      let (r, db') = register_user salt dto db in
      elim r [
        | err e ↦ (err e, session, db')
        | ok user ↦
            let (seeded, db'') = seed_default_labels o user.id db' in
            elim seeded [
              | err e ↦ (err e, session_of user, db'')
              | ok labels ↦ (ok (info_of user), session_of user, db'')
            ]
      ]

  unfoldable pub get_current_user : ℕ → Action (Option UserInfo)
  get_current_user user_id = do
    user ← find_by_id o user_id
    elim user [ none ↦ gets (λ _. none) | some u ↦ gets (λ _. some (info_of u)) ]

  unfoldable pub login_user : LoginDto → Action User
  login_user dto = do
    user ← find_by_email o (normalize dto.email)
    elim user [
      | none ↦ throw (unauthorized "Invalid email or password")
      | some u ↦
          if env.compare dto.password u.password
          then gets (λ _. u)
          else throw (unauthorized "Invalid email or password")
    ]

  unfoldable pub login : LoginDto → SessionAction UserInfo
  login dto session db =
      let (r, db') = login_user dto db in
      elim r [ err e ↦ (err e, session, db') | ok user ↦ (ok (info_of user), session_of user, db') ]
