-- ===== src/Frontend/Queries.antt =====
-- The query client of `@tanstack/react-query`, as the hooks of frontend/src call it.
use kan_pad.Base.{ℕ, ◌≡◌, ◌↔◌, Bool, true, false, List, Option, none, some}
pub mod CardKeys
pub mod Cards
pub mod Unreached
pub mod Items
pub mod ItemsUndone

-- The cached data of the queries of one kind: `getQueryData(key)`, `setQueryData(key, updater)` and
-- `getQueriesData({ queryKey })`, which lists the queries under the kind's first key.
pub record QueryClient (S K V : Type 0) : Type 0 where
  pub get_query_data : S → K → Option V
  pub set_query_data : S → K → (Option V → Option V) → S
  pub get_queries_data : S → List (K × Option V)

-- an updater's `undefined` leaves the data as it is
abbrev pub updated {ℓ} : {V : Type ℓ} → Option V → Option V → Option V
updated old none = old
updated old (some v) = some v

-- What its documentation says of them; `same` compares keys, by value.
pub record IsDocumented {S K V : Type 0} (q : QueryClient S K V) (same : K → K → Bool)
    : Type 0 where
  pub get_set_same :
      (s : S) (k j : K) (f : Option V → Option V)
      → same k j ≡ true
      → q.get_query_data (q.set_query_data s k f) j
        ≡ updated (q.get_query_data s k) (f (q.get_query_data s k))
  pub get_set_other :
      (s : S) (k j : K) (f : Option V → Option V)
      → same k j ≡ false
      → q.get_query_data (q.set_query_data s k f) j ≡ q.get_query_data s j
