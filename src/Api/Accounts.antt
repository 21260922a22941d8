-- ===== src/Api/Accounts.antt =====
-- backend/src/auth/auth.controller.ts.
use kan_pad.Base.{ℕ}
use kan_pad.Base.Text.{Text, codes}
use kan_pad.Auth.Service.{AuthEnv, RegisterDto, LoginDto, UserInfo, SessionAction, register, login}
use kan_pad.Auth.Session.{Session, Destroy, logout, me}
use kan_pad.Store.Action.{ok, err}
use kan_pad.Store.Repository.{Orm}

-- the routes of `AuthController`; the number is the salt of bcrypt
pub data AuthRequest : Type 0 where
  sign_up : ℕ → RegisterDto → AuthRequest
  sign_in : LoginDto → AuthRequest
  sign_out : Destroy → AuthRequest
  show_me : AuthRequest

-- `logged_out` carries the name of the cookie that is cleared
pub data AuthAnswer : Type 0 where
  of_user : UserInfo → Text → AuthAnswer
  logged_out : Text → Text → AuthAnswer
  of_session : Session → AuthAnswer

module _ (o : Orm) (env : AuthEnv) where
  unfoldable pub auth_controller : AuthRequest → SessionAction AuthAnswer
  auth_controller (sign_up salt dto) session db =
      let (r, session', db') = register o env salt dto session db in
      elim r [
        | err e ↦ (err e, session', db')
        | ok user ↦ (ok (of_user user (codes "Registration successful")), session', db')
      ]
  auth_controller (sign_in dto) session db =
      let (r, session', db') = login o env dto session db in
      elim r [
        | err e ↦ (err e, session', db')
        | ok user ↦ (ok (of_user user (codes "Login successful")), session', db')
      ]
  auth_controller (sign_out destroy) session db = elim (logout destroy) [
    | err e ↦ (err e, session, db)
    | ok _ ↦ (ok (logged_out (codes "connect.sid") (codes "Logout successful")), session, db)
  ]
  auth_controller show_me session db = elim (me session) [
    | err e ↦ (err e, session, db)
    | ok s ↦ (ok (of_session s), session, db)
  ]
