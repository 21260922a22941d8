-- ===== src/Auth/Session.antt =====
-- backend/src/auth: the fields of a session, the guard of the other controllers
-- (guards/session.guard.ts), the decorator `CurrentUser` (decorators/current-user.decorator.ts), and
-- the handler `me` (auth.controller.ts).
use kan_pad.Base.{zero, suc, Bool, true, false, ◌||◌, Option, none, some, if◌then◌else◌}
use kan_pad.Base.Int.{ℤ, pos, negsuc, ltb_ℤ}
use kan_pad.Base.Text.{Text, is_empty}
use kan_pad.Store.Action.{Result, ok, err, HttpError, unauthorized, internal_server_error}

-- A field of the session, of type `unknown`.
pub data Value : Type 0 where
  undefined : Value
  number : ℤ → Value
  text : Text → Value

pub record Session : Type 0 where
  pub user_id : Value
  pub email : Value
  pub role : Value

pub record CurrentUserData : Type 0 where
  pub id : ℤ
  pub email : Text
  pub role : Text

-- What `session.destroy` does: it is missing, or its callback gets an error or none.
pub data Destroy : Type 0 where
  missing : Destroy
  calls_back : Option HttpError → Destroy

unfoldable pub logout : Destroy → Result (Unit {0})
logout missing = err internal_server_error
logout (calls_back (some e)) = err e
logout (calls_back none) = ok tt

-- `SessionGuard.canActivate`, on `request.session`
unfoldable pub can_activate : Option Session → Result Bool
can_activate none = err (unauthorized "Unauthorized")
can_activate (some session) = elim (Session.user_id session) [
  | number id ↦ if ltb_ℤ (pos 0) id then ok true else err (unauthorized "Unauthorized")
  | _ ↦ err (unauthorized "Unauthorized")
]

unfoldable pub current_user_of : Value → Value → Value → Result CurrentUserData
current_user_of (number id) (text email) (text role) =
    ok (record { id = id; email = email; role = role })
current_user_of _ _ _ = err (unauthorized "Unauthorized")

-- the decorator `CurrentUser`
unfoldable pub current_user : Option Session → Result CurrentUserData
current_user none = err (unauthorized "Unauthorized")
current_user (some s) = current_user_of s.user_id s.email s.role

-- `!value`
abbrev is_falsy : Value → Bool
is_falsy undefined = true
is_falsy (number (pos zero)) = true
is_falsy (number (pos (suc n))) = false
is_falsy (number (negsuc n)) = false
is_falsy (text t) = is_empty t

-- the handler `me`, which answers with the session
unfoldable pub me : Session → Result Session
me s =
    if is_falsy s.user_id || is_falsy s.email || is_falsy s.role
    then err (unauthorized "Unauthorized")
    else ok s
