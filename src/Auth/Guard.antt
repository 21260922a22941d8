-- ===== src/Auth/Guard.antt =====
-- The guard, the decorator and the handler `me`, on the sessions that the service writes.
use kan_pad.Base.{ℕ, ◌≢◌, ◌≡◌, refl, Option, none, some, true, arith, ◌⊎◌, inl, inr, ◌↔◌}
use kan_pad.Base.Int.{pos, negsuc}
use kan_pad.Auth.Service.{session_of}
use kan_pad.Auth.Session.{Value, Session, can_activate, current_user, current_user_of}
use kan_pad.Store.Action.{ok}
use kan_pad.Store.Entities.{User}

-- The session of a user with an id other than 0 passes the guard, and the decorator then reads the
-- user's id, email and role from it.
pub session_of-passes :
    (u : User)
    → u.id ≢ 0
    → (can_activate (some (session_of u)) ≡ ok true)
      × (current_user (some (session_of u))
          ≡ ok (record { id = pos u.id; email = u.email; role = u.role }))
unfolding can_activate current_user current_user_of
session_of-passes u h = (ground arith, refl)

Value-cases :
    (v : Value) → ((n : ℕ) × (v ≡ Value.number (pos n))) ⊎ ((n : ℕ) → v ≢ Value.number (pos n))
Value-cases (Value.number (pos n)) = inl (n, refl)
Value-cases (Value.number (negsuc n)) = inr (λ k e. ground arith)
Value-cases Value.undefined = inr (λ k e. ground arith)
Value-cases (Value.text t) = inr (λ k e. ground arith)

-- a value that is no natural number is refused
refused :
    (s : Session) (v : Value)
    → s.user_id ≡ v
    → ((n : ℕ) → v ≢ Value.number (pos n))
    → can_activate (some s) ≢ ok true
unfolding can_activate
refused s (Value.number (pos n)) e h k = h n refl
refused s (Value.number (negsuc n)) e h k = ground arith
refused s Value.undefined e h k = ground arith
refused s (Value.text t) e h k = ground arith

-- What the guard admits has a positive number for its user, and nothing else is admitted: a request
-- without a session, without a user in it, or with a text or a number below 1 there is refused.
pub can_activate_iff :
    (session : Option Session)
    → (can_activate session ≡ ok true) ↔ (
        (s : Session) × (n : ℕ) × (session ≡ some s) × (s.user_id ≡ Value.number (pos n)) × (n ≢ 0))
unfolding can_activate
can_activate_iff none = (λ h. absurd (ground arith), λ h. absurd (ground (arith, h.2)))
can_activate_iff (some s) = (
  λ h. elim (Value-cases s.user_id) [
    | inl (n, p) ↦ (s, n, refl, p, ground arith)
    | inr other ↦ absurd (refused s s.user_id refl other h)
  ],
  λ (t, n, e, p, k). ground arith,
)
