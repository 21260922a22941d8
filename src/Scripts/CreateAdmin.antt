-- ===== src/Scripts/CreateAdmin.antt =====
-- backend/src/scripts/create-admin.ts. What is written to the console is left out, but for the
-- errors; a promise that is rejected is an `err` with the message of the Error.
pub mod Addresses
pub mod Passwords
pub mod Single
use kan_pad.Base.{
  ℕ, Bool, true, false, not, ◌&&◌, ◌||◌, List, [], ◌∷◌, Option, none, some, any, leb, length, ◌==◌,
  is_some, if◌then◌else◌,
}
use kan_pad.Base.Text.{Text, codes, text_eq, is_empty, is_space}
use kan_pad.Store.Entities.{User, Db}
use kan_pad.Store.Repository.{Orm, DbFault}

pub record CliArgs : Type 0 where
  pub email : Option Text
  pub password : Option Text
  pub help : Bool

-- a LineTerminator of ECMAScript, which `.` does not match
abbrev pub is_line_end : ℕ → Bool
is_line_end c = c == 10 || c == 13 || c == 0x2028 || c == 0x2029

-- what follows a prefix
unfoldable pub after_prefix : Text → Text → Option Text
after_prefix [] s = some s
after_prefix (p ∷ ps) [] = none
after_prefix (p ∷ ps) (c ∷ s) = let rest = after_prefix ps s in if p == c then rest else none

-- `(.+)$`, the group of a match
abbrev pub is_line : Text → Bool
is_line s = not (is_empty s) && not (any is_line_end s)

-- `arg.match(/^--name=(.+)$/)`
unfoldable pub match_option : Text → Text → Option Text
unfolding after_prefix
match_option name arg = elim (after_prefix name arg) [
  | none ↦ none
  | some value ↦ if is_line value then some value else none
]

-- the body of the loop of `parseArgs`
abbrev pub parse_arg : Text → CliArgs → CliArgs
parse_arg arg result =
    if text_eq arg (codes "--help") || text_eq arg (codes "-h")
    then record result { help = true }
    else elim (match_option (codes "--email=") arg) [
      | some email ↦ record result { email = some email }
      | none ↦ elim (match_option (codes "--password=") arg) [
        | some password ↦ record result { password = some password }
        | none ↦ result
      ]
    ]

unfoldable pub parse_args_from : List Text → CliArgs → CliArgs
parse_args_from [] result = result
parse_args_from (arg ∷ args) result = parse_args_from args (parse_arg arg result)

unfoldable pub parse_args : List Text → CliArgs
unfolding parse_args_from
parse_args args = parse_args_from args (record { email = none; password = none; help = false })

-- `[^\s@]`
abbrev pub is_plain : ℕ → Bool
is_plain c = not (is_space c || c == 64)

unfoldable pub all_plain : Text → Bool
all_plain [] = true
all_plain (c ∷ s) = is_plain c && all_plain s

-- `\.[^\s@]+$` at some place of a text of such characters
unfoldable pub dot_inside : Text → Bool
dot_inside [] = false
dot_inside (c ∷ s) = let rest = dot_inside s in (c == 46 && not (is_empty s)) || rest

-- `[^\s@]+\.[^\s@]+$`
unfoldable pub is_domain : Text → Bool
unfolding all_plain dot_inside
is_domain [] = false
is_domain (c ∷ s) = all_plain (c ∷ s) && dot_inside s

-- what follows `[^\s@]*`
unfoldable pub after_local : Text → Bool
unfolding is_domain
after_local [] = false
after_local (c ∷ s) =
    let rest = after_local s in if c == 64 then is_domain s else is_plain c && rest

-- EMAIL_REGEX
unfoldable pub is_email : Text → Bool
unfolding after_local
is_email [] = false
is_email (c ∷ s) = is_plain c && after_local s

abbrev pub is_letter : ℕ → Bool
is_letter c = (leb 97 c && leb c 122) || (leb 65 c && leb c 90)

abbrev pub is_digit : ℕ → Bool
is_digit c = leb 48 c && leb c 57

-- `[!@#$%^&*]`
abbrev pub is_special : ℕ → Bool
is_special c = any (λ d. d == c) (codes "!@#$%^&*")

-- the lookahead `(?=.*p)`
unfoldable pub ahead : (ℕ → Bool) → Text → Bool
ahead p [] = false
ahead p (c ∷ s) = let rest = ahead p s in p c || (not (is_line_end c) && rest)

-- the lookahead `(?=p)`
abbrev pub first_is : (ℕ → Bool) → Text → Bool
first_is p [] = false
first_is p (c ∷ s) = p c

-- PASSWORD_REGEX: in `(?=.*\d|[!@#$%^&*])` the `.*` belongs to the digit alone
unfoldable pub is_strong : Text → Bool
unfolding ahead
is_strong s =
    ahead is_letter s
    && (ahead is_digit s || first_is is_special s)
    && not (any (λ c. not (is_letter c || is_digit c || is_special c)) s)
    && leb 8 (length s)

pub data CliError : Type 0 where
  missing_environment email_failed password_failed admin_exists : CliError
  -- what the connection or the INSERT throws
  database_error : CliError

pub data CliResult : Type 0 where
  helped created : CliResult
  failed : CliError → CliResult

-- What the script calls besides the database: the environment, the answers of inquirer, bcryptjs
-- with a salt that is drawn, and whether `initialize` connects.
pub record CliHost : Type 0 where
  pub db_host : Option Text
  pub db_port : Option Text
  pub prompt_email : Text
  pub prompt_password : Text
  pub hash : ℕ → ℕ → Text → Text
  pub connects : Bool

-- `!text`
abbrev pub is_unset : Option Text → Bool
is_unset none = true
is_unset (some s) = is_empty s

abbrev pub given_or : Option Text → Text → Text
given_or none asked = asked
given_or (some s) asked = if is_empty s then asked else s

abbrev pub is_admin : Orm → User → Bool
is_admin o u = o.collate (codes "admin") (User.role u)

module _ (o : Orm) (host : CliHost) where
  abbrev pub insert_admin : ℕ → Text → Text → Db → CliResult × Db
  insert_admin salt email password db = elim (o.user_fault db) [
    | some fault ↦ (failed database_error, db)
    | none ↦
        let (user, users) =
          o.users.insert
            (λ g. record {
              id = g.id;
              email = email;
              password = host.hash salt 10 password;
              role = codes "admin";
            })
            db.users in
        (created, record db { users = users })
  ]

  -- the `try` of `mainInternal`
  unfoldable pub add_admin : ℕ → Text → Text → Db → CliResult × Db
  add_admin salt email password db = elim (o.users.find_one (is_admin o) db.users) [
    | some user ↦ (failed admin_exists, db)
    | none ↦ insert_admin salt email password db
  ]

  -- `mainInternal` from where both values are known
  unfoldable pub check_and_add : ℕ → Text → Text → Db → CliResult × Db
  unfolding is_email is_strong add_admin
  check_and_add salt email password db =
      if not (is_email email)
      then (failed email_failed, db)
      else if not (is_strong password)
      then (failed password_failed, db)
      else if not host.connects
      then (failed database_error, db)
      else add_admin salt email password db

  unfoldable pub main_internal : ℕ → List Text → Db → CliResult × Db
  unfolding parse_args check_and_add
  main_internal salt args db =
      let parsed = parse_args args in
      if CliArgs.help parsed
      then (helped, db)
      else if is_unset host.db_host && is_unset host.db_port
      then (failed missing_environment, db)
      else check_and_add salt (given_or (CliArgs.email parsed) host.prompt_email)
          (given_or (CliArgs.password parsed) host.prompt_password) db
