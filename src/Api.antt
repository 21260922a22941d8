-- ===== src/Api.antt =====
-- backend/src/*/*.controller.ts: the requests that the API serves. `@UseGuards(SessionGuard)` stands
-- before each handler of these controllers, and a handler passes `session.userId` to the service.
-- A request has passed the pipes: its ids are integers, and not negative, since no row has a
-- negative id, and its body has passed validation. `created_at` and `updated_at` are left out.
use kan_pad.Base.{ℕ, Bool, List, [], ◌∷◌, ◌++◌, Option, none, some}
use kan_pad.Base.Int.{pos}
use kan_pad.Base.Text.{Text}
use kan_pad.Auth.Session.{Session, Value, number, can_activate}
use kan_pad.Store.Action.{Action, ok, err, gets, ◌>>=◌, pure}
pub mod Content
pub mod Boards
pub mod Columns
pub mod Cards
pub mod Checklists
pub mod Projects
pub mod Tags
pub mod Labels
pub mod Notes
pub mod Server
pub mod Reading
pub mod Isolation
pub mod Foreign
pub mod Accounts
pub mod Admitted

-- the member `data` of an answer: a list, an object, or absent
pub data Payload (A : Type 0) : Type 0 where
  many : List A → Payload A
  single : A → Payload A
  nothing : Payload A

-- what a handler returns: the member `data` and the member `message`
pub record Reply (A : Type 0) : Type 0 where
  pub content : Payload A
  pub message : Option Text

abbrev pub answers : {A : Type 0} → Payload A → Action (Reply A)
answers a = pure (record { content = a; message = none })

abbrev pub answers_with : {A : Type 0} → Text → Payload A → Action (Reply A)
answers_with message a = pure (record { content = a; message = some message })

-- `session.userId`, which is a positive number behind the guard
abbrev pub user_of : Session → ℕ
user_of s = elim (Session.user_id s) [ number (pos n) ↦ n | _ ↦ 0 ]

-- a handler behind the guard
unfoldable pub guarded : {A : Type 0} → Option Session → (ℕ → Action A) → Action A
unfolding can_activate
guarded none handler db = elim (can_activate none) [ err e ↦ (err e, db) | ok _ ↦ handler 0 db ]
guarded (some s) handler db = elim (can_activate (some s)) [
  | err e ↦ (err e, db)
  | ok _ ↦ handler (user_of s) db
]

-- the answer of a handler, as a case of the answers of its controller
abbrev pub answered : {A B : Type 0} → (A → B) → Action A → Action B
answered f m = m >>= λ a. gets (λ _. f a)
