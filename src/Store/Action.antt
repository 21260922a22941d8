-- ===== src/Store/Action.antt =====
-- A service method: it reads and writes the tables, and returns or throws an HTTP exception of
-- NestJS. What was written before a throw stays written, but for a transaction.
use Prim.Native.String.{String}
use mathlib.Core.Bool.{Bool, true, false}
use mathlib.Core.List.{List, [], ◌∷◌}
use mathlib.Core.Option.{Option, none, some}
use mathlib.Core.Logic.{◌⊎◌, inl, inr}
use mathlib.Core.Path.{◌≡◌, refl}
use native.Mathlib.Omega.{arith}
use kan_pad.Store.Entities.{Db}
use kan_pad.Store.Repository.{Orm}

-- The exceptions of @nestjs/common with their messages. `type_error` is a JavaScript TypeError, on
-- a field of a relation that did not load.
pub data HttpError : Type 0 where
  bad_request unauthorized forbidden not_found conflict : String → HttpError
  internal_server_error type_error : HttpError

pub data Result {ℓ} (A : Type ℓ) : Type ℓ where
  ok : A → Result A
  err : HttpError → Result A

abbrev pub Action : Type 0 → Type 0
Action A = Db → Result A × Db

infixl 5 ◌>>=◌ ◌>>◌
abbrev pub ◌>>=◌ : {A B : Type 0} → Action A → (A → Action B) → Action B
◌>>=◌ m f db = let (r, db') = m db in elim r [ ok a ↦ f a db' | err e ↦ (err e, db') ]

abbrev pub ◌>>◌ : {A B : Type 0} → Action A → Action B → Action B
m >> k = m >>= λ _. k

module _ {A : Type 0} where
  abbrev pub pure : A → Action A
  pure a db = (ok a, db)

  abbrev pub throw : HttpError → Action A
  throw e db = (err e, db)

  abbrev pub gets : (Db → A) → Action A
  gets f db = (ok (f db), db)

  abbrev pub or_throw : HttpError → Option A → Action A
  or_throw e none = throw e
  or_throw e (some a) = pure a

  -- `dataSource.transaction(...)`
  abbrev pub transaction : Orm → Action A → Action A
  transaction o m db =
      let (r, db') = m db in elim r [ ok a ↦ (ok a, db') | err e ↦ (err e, o.rollback db db') ]

abbrev pub modify : (Db → Db) → Action (Unit {0})
modify f db = (ok tt, f db)

abbrev pub skip : Action (Unit {0})
skip = pure tt

abbrev pub throw_if : HttpError → Bool → Action (Unit {0})
throw_if e true = throw e
throw_if e false = skip

-- `if (b) { … }` with no `else`
abbrev pub when : Bool → Action (Unit {0}) → Action (Unit {0})
when true m = m
when false m = skip

-- `if (x !== undefined) { … }`
abbrev pub when_some : {A : Type 0} → Option A → (A → Action (Unit {0})) → Action (Unit {0})
when_some none f = skip
when_some (some a) f = f a

-- `for (const x of xs) { … }`
unfoldable pub for_each : {A : Type 0} → List A → (A → Action (Unit {0})) → Action (Unit {0})
for_each [] body = skip
for_each (x ∷ xs) body = let rest = for_each xs body in body x >> rest

-- A step that returns is followed by the rest, from the tables that it leaves.
pub >>=-ok :
    {A B : Type 0} (m : Action A) (f : A → Action B) {a : A} (db : Db) {db' : Db}
    → m db ≡ (ok a, db')
    → (m >>= f) db ≡ f a db'
>>=-ok m f db e = ground arith

-- A step that throws ends the method.
pub >>=-err :
    {A B : Type 0} (m : Action A) (f : A → Action B) {e : HttpError} (db : Db) {db' : Db}
    → m db ≡ (err e, db')
    → (m >>= f) db ≡ (err e, db')
>>=-err m f db e = ground arith

pub transaction-ok :
    {A : Type 0} (o : Orm) (m : Action A) {a : A} (db : Db) {db' : Db}
    → m db ≡ (ok a, db')
    → transaction o m db ≡ (ok a, db')
transaction-ok o m db e = ground arith

pub Result-cases :
    {A : Type 0} (r : Result A) → ((e : HttpError) × (r ≡ err e)) ⊎ ((a : A) × (r ≡ ok a))
Result-cases (ok a) = inr (a, refl)
Result-cases (err e) = inl (e, refl)
