-- ===== src/Frontend/Client/Routed.antt =====
-- What the user is told follows the status of the answer, whatever its body.
use kan_pad.Base.{ℕ, ◌≡◌, ◌≢◌, refl, true, false, Option, none, some, arith}
use kan_pad.Base.Text.{Text, codes}
use kan_pad.Frontend.Client.{
  Json, null, boolean, number, string, array, object, Members, ApiError, Response, resolved,
  returned, thrown_api, get_member, message_error, problem_error, to_api_error, is_ok, api_fetch,
  error_messages, message_of_status, get_error_message, fallback_message, plain_error,
}

problem_error-status :
    (status : ℕ) (fallback : Text) (body : Members)
    → ApiError.status (problem_error status fallback body) ≡ status
unfolding problem_error
problem_error-status status fallback body = ground arith

message_error-status :
    (status : ℕ) (fallback : Text) (body : Members) (message : Option Json)
    → ApiError.status (message_error status fallback body message) ≡ status
message_error-status status fallback body none = problem_error-status status fallback body
message_error-status status fallback body (some null) = problem_error-status status fallback body
message_error-status status fallback body (some (boolean b)) =
    problem_error-status status fallback body
message_error-status status fallback body (some (number n)) =
    problem_error-status status fallback body
message_error-status status fallback body (some (string m)) =
    ground (arith, problem_error-status status fallback body)
message_error-status status fallback body (some (array ms)) =
    ground (arith, problem_error-status status fallback body)
message_error-status status fallback body (some (object m)) =
    problem_error-status status fallback body

to_api_error-status :
    (status : ℕ) (status_text : Text) (body : Option Json)
    → ApiError.status (to_api_error status status_text body) ≡ status
unfolding to_api_error
to_api_error-status status status_text none = refl
to_api_error-status status status_text (some null) = refl
to_api_error-status status status_text (some (boolean b)) = refl
to_api_error-status status status_text (some (number n)) = refl
to_api_error-status status status_text (some (string m)) = refl
to_api_error-status status status_text (some (array ms)) = refl
to_api_error-status status status_text (some (object m)) =
    message_error-status status (fallback_message status status_text) m
      (get_member (codes "message") m)

-- Whatever the body of an answer: a status below 200 or above 299 makes `apiFetch` throw an error
-- with that status, and the user is told by it alone: that the session has expired for 401, of the
-- server for 500 and above, of the input for the others from 400 on; a 204 returns nothing, and any
-- other answer returns its body, or throws where there is none that can be read.
pub api_fetch-routes :
    (r : Response)
    → (is_ok r ≡ false
        → (e : ApiError) × (api_fetch (resolved r) ≡ thrown_api e)
          × (e.status ≡ r.status)
          × (get_error_message (api_fetch (resolved r))
              ≡ some (error_messages (message_of_status r.status))))
      × (is_ok r ≡ true → r.status ≡ 204 → api_fetch (resolved r) ≡ returned none)
      × ((value : Json)
          → is_ok r ≡ true
          → r.status ≢ 204
          → r.body ≡ some value
          → api_fetch (resolved r) ≡ returned (some value))
      × (is_ok r ≡ true
          → r.status ≢ 204
          → r.body ≡ none
          → (e : ApiError) × (api_fetch (resolved r) ≡ thrown_api e) × (e.status ≡ r.status))
unfolding api_fetch get_error_message
api_fetch-routes r = (
  λ h.
      let same = to_api_error-status r.status r.status_text r.body in
      (to_api_error r.status r.status_text r.body, rw h refl, same, rw (h, same) refl),
  λ h e. ground (arith, h, e),
  λ value h n e. ground (arith, h, n, e),
  λ h n e.
      (plain_error r.status (codes "Unexpected response format"), ground (arith, h, n, e), refl),
)
