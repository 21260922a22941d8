-- ===== src/Api/Admitted.antt =====
-- Who is served: the guard before the controllers, and the session that a login writes.
use kan_pad.Base.{ℕ, zero, suc, ◌≡◌, ◌≢◌, refl, ◌⊎◌, inl, inr, arith, Option, none, some}
use kan_pad.Base.Int.{pos, negsuc}
use kan_pad.Base.Text.{Text}
use kan_pad.Api.{guarded}
use kan_pad.Api.Accounts.{
  AuthRequest, of_user, sign_up, sign_in, sign_out, show_me, auth_controller,
}
use kan_pad.Api.Server.{Request, dispatch, serve}
use kan_pad.Auth.Service.{
  AuthEnv, UserInfo, register, register_user, login, login_user, info_of, session_of,
}
use kan_pad.Auth.Session.{Session, Value, number, can_activate, logout, me}
use kan_pad.Labels.{seed_default_labels}
use kan_pad.Store.Action.{ok, err, unauthorized, Result-cases}
use kan_pad.Store.Entities.{Db, User}
use kan_pad.Store.Repository.{Orm}

module _ (o : Orm) where
  -- Every request to the controllers behind the guard, those of boards, columns, cards, checklists,
  -- projects, tags, labels and notes, is refused with 401, with the tables left as they were, or its
  -- handler runs for the positive number that the session has as its user.
  pub serve-cases :
      (session : Option Session) (r : Request) (db : Db)
      → (serve o session r db ≡ (err (unauthorized "Unauthorized"), db))
        ⊎ ((s : Session) × (n : ℕ) × (session ≡ some s)
            × (s.user_id ≡ number (pos (suc n)))
            × (serve o session r db ≡ dispatch o r (suc n) db))
  unfolding serve guarded can_activate
  serve-cases none r db = inl refl
  serve-cases (some s) r db = serve_by s.user_id refl
    where
      serve_by :
          (v : Value)
          → s.user_id ≡ v
          → (serve o (some s) r db ≡ (err (unauthorized "Unauthorized"), db))
            ⊎ ((s' : Session) × (n : ℕ) × (some s ≡ some s')
                × (s'.user_id ≡ number (pos (suc n)))
                × (serve o (some s) r db ≡ dispatch o r (suc n) db))
      serve_by (number (pos zero)) e = inl (ground (arith, e))
      serve_by (number (pos (suc n))) e = inr (s, n, refl, e, ground (arith, e))
      serve_by (number (negsuc n)) e = inl (ground (arith, e))
      serve_by Value.undefined e = inl (ground (arith, e))
      serve_by (Value.text t) e = inl (ground (arith, e))

  serve-number :
      (u : User) (r : Request) (db : Db)
      → u.id ≢ 0
      → serve o (some (session_of u)) r db ≡ dispatch o r u.id db
  unfolding serve guarded can_activate
  serve-number u r db n = ground (arith, n)

module _ (o : Orm) (env : AuthEnv) where
  login-session :
      (request : AuthRequest) (s s' : Session) (db db' : Db) (info : UserInfo) (message : Text)
      → auth_controller o env request s db ≡ (ok (of_user info message), s', db')
      → (u : User) × (info ≡ info_of u) × (s' ≡ session_of u)
  unfolding auth_controller register login
  login-session (sign_up salt dto) s s' db db' info message h =
      elim (Result-cases (register_user o env salt dto db).0) [
        | inl (e, r) ↦ absurd (ground (arith, h, r))
        | inr (u, r) ↦
            elim (Result-cases (seed_default_labels o u.id (register_user o env salt dto db).1).0) [
              | inl (e, q) ↦ absurd (ground (arith, h, r, q))
              | inr (labels, q) ↦ (u, ground (arith, h, r, q), ground (arith, h, r, q))
            ]
      ]
  login-session (sign_in dto) s s' db db' info message h =
      elim (Result-cases (login_user o env dto db).0) [
        | inl (e, r) ↦ absurd (ground (arith, h, r))
        | inr (u, r) ↦ (u, ground (arith, h, r), ground (arith, h, r))
      ]
  login-session (sign_out destroy) s s' db db' info message h =
      elim (Result-cases (logout destroy)) [
        | inl (e, r) ↦ absurd (ground (arith, h, r))
        | inr (_, r) ↦ absurd (ground (arith, h, r))
      ]
  login-session show_me s s' db db' info message h = elim (Result-cases (me s)) [
    | inl (e, r) ↦ absurd (ground (arith, h, r))
    | inr (_, r) ↦ absurd (ground (arith, h, r))
  ]

  -- After a request of `AuthController` that answers with a user, whose id is not 0, every request to
  -- the controllers behind the guard with the session that it wrote is handled for that user.
  pub auth_controller-serve :
      (request : AuthRequest) (s s' : Session) (db db' : Db) (info : UserInfo) (message : Text)
      → auth_controller o env request s db ≡ (ok (of_user info message), s', db')
      → info.id ≢ 0
      → (r : Request) (later : Db) → serve o (some s') r later ≡ dispatch o r info.id later
  auth_controller-serve request s s' db db' info message h n r later =
      let (u, same, wrote) = login-session request s s' db db' info message h in
      let known : info.id ≡ u.id = ground (arith, same) in
      rw (wrote, known) (serve-number o u r later (rw (← known) n))
