-- ===== src/Frontend/Client.antt =====
-- frontend/src/lib/api/client.ts and frontend/src/lib/error-messages.ts: how an answer of the server
-- becomes a value or an error, and what the user is told of an error.
use kan_pad.Base.{
  ℕ, suc, ◌+◌, ◌/◌, ◌%◌, Bool, true, false, not, ◌&&◌, ◌||◌, List, [], ◌∷◌, ◌++◌, Option, none,
  some, get_or, is_some, leb, ◌==◌, if◌then◌else◌,
}
use kan_pad.Base.Text.{Text, codes, text_eq, is_empty}
use kan_pad.Filters.{includes}
pub mod Routed

-- a value that `response.json()` gives
mutual
  pub data Json : Type 0 where
    null : Json
    boolean : Bool → Json
    number : ℕ → Json
    string : Text → Json
    array : Elements → Json
    object : Members → Json

  pub data Elements : Type 0 where
    end : Elements
    element : Json → Elements → Elements

  pub data Members : Type 0 where
    empty : Members
    member : Text → Json → Members → Members

-- class `ApiError`, but for its name, which is always `ApiError`
pub record ApiError : Type 0 where
  pub status : ℕ
  pub message : Text
  pub title : Option Text
  pub detail : Option Text
  pub errors : Option Json

-- A `Response`; its `body` is what `json()` resolves to, or `none` where it rejects. The status has
-- three digits.
pub record Response : Type 0 where
  pub status : ℕ
  pub status_text : Text
  pub body : Option Json

-- what `fetch` gives: a response, or its rejection's name and message, a `TypeError` or not
pub data Fetched : Type 0 where
  resolved : Response → Fetched
  rejected : Bool → Text → Text → Fetched

-- what a caller of `apiFetch` gets; `none` is `undefined`
pub data Outcome : Type 0 where
  returned : Option Json → Outcome
  thrown_api : ApiError → Outcome
  thrown : Bool → Text → Text → Outcome

-- `body[key]` and `key in body`
unfoldable pub get_member : Text → Members → Option Json
get_member key empty = none
get_member key (member k v rest) =
    let found = get_member key rest in if text_eq k key then some v else found

abbrev pub string_of : Option Json → Option Text
string_of (some (string s)) = some s
string_of _ = none

-- `message.filter((m) => typeof m === 'string').join(', ')`
unfoldable pub strings_of : Elements → List Text
strings_of end = []
strings_of (element (string s) rest) = s ∷ strings_of rest
strings_of (element _ rest) = strings_of rest

unfoldable pub join : List Text → Text
join [] = []
join (s ∷ []) = s
join (s ∷ t ∷ rest) = s ++ codes ", " ++ join (t ∷ rest)

-- the digits of a status
abbrev pub digits : ℕ → Text
digits n = (48 + n / 100) ∷ (48 + n / 10 % 10) ∷ (48 + n % 10) ∷ []

unfoldable pub fallback_message : ℕ → Text → Text
fallback_message status status_text =
    if is_empty status_text
    then codes "Request failed with status " ++ digits status
    else status_text

abbrev pub plain_error : ℕ → Text → ApiError
plain_error status message = record {
  status = status;
  message = message;
  title = none;
  detail = none;
  errors = none;
}

-- the branch of a body with `title`, `detail` or `errors`, and the last `return`
unfoldable pub problem_error : ℕ → Text → Members → ApiError
unfolding get_member
problem_error status fallback body =
    let title = string_of (get_member (codes "title") body) in
    let detail = string_of (get_member (codes "detail") body) in
    let errors = get_member (codes "errors") body in
    if is_some (get_member (codes "title") body)
      || is_some (get_member (codes "detail") body)
      || is_some errors
    then record {
      status = status;
      message = get_or detail (get_or title fallback);
      title = title;
      detail = detail;
      errors = errors;
    }
    else plain_error status fallback

-- the branches of `body['message']`
abbrev pub message_error : ℕ → Text → Members → Option Json → ApiError
message_error status fallback body (some (string message)) =
    if is_empty message then problem_error status fallback body else plain_error status message
message_error status fallback body (some (array messages)) =
    let joined = join (strings_of messages) in
    if is_empty joined then problem_error status fallback body else plain_error status joined
message_error status fallback body _ = problem_error status fallback body

-- `toApiError`; an array is an object without the members that are read
unfoldable pub to_api_error : ℕ → Text → Option Json → ApiError
unfolding problem_error strings_of join get_member fallback_message
to_api_error status status_text (some (object body)) =
    message_error status (fallback_message status status_text) body
      (get_member (codes "message") body)
to_api_error status status_text _ = plain_error status (fallback_message status status_text)

-- `response.ok`
abbrev pub is_ok : Response → Bool
is_ok r = leb 200 r.status && leb r.status 299

-- `apiFetch`, after the `fetch`
unfoldable pub api_fetch : Fetched → Outcome
unfolding to_api_error
api_fetch (rejected is_type_error name message) = thrown is_type_error name message
api_fetch (resolved r) =
    if not (is_ok r)
    then thrown_api (to_api_error r.status r.status_text r.body)
    else if r.status == 204
    then returned none
    else elim (Response.body r) [
      | some value ↦ returned (some value)
      | none ↦ thrown_api (plain_error r.status (codes "Unexpected response format"))
    ]

-- type `ErrorType`, the key of a message in `ERROR_MESSAGES`
pub data ErrorType : Type 0 where
  network timeout server validation unauthorized unknown : ErrorType

-- interface `ErrorMessage`
pub record ErrorMessage : Type 0 where
  pub title : Text
  pub message : Text
  pub retry : Bool
  pub redirect : Option Text

unfoldable pub error_messages : ErrorType → ErrorMessage
error_messages network = record {
  title = codes "Connection Error";
  message = codes "Unable to reach the server. Check your internet connection.";
  retry = true;
  redirect = none;
}
error_messages timeout = record {
  title = codes "Request Timeout";
  message = codes "The request took too long. Please try again.";
  retry = true;
  redirect = none;
}
error_messages server = record {
  title = codes "Server Error";
  message = codes "Something went wrong on our end. Please try again later.";
  retry = true;
  redirect = none;
}
error_messages validation = record {
  title = codes "Invalid Input";
  message = codes "Please check your input and try again.";
  retry = false;
  redirect = none;
}
error_messages unauthorized = record {
  title = codes "Session Expired";
  message = codes "Your session has expired. Please log in again.";
  retry = false;
  redirect = some (codes "/login");
}
error_messages unknown = record {
  title = codes "Something Went Wrong";
  message = codes "An unexpected error occurred. Please try again.";
  retry = true;
  redirect = none;
}

-- the branches on `status`
unfoldable pub message_of_status : ℕ → ErrorType
message_of_status status =
    if status == 401
    then unauthorized
    else if leb 500 status
    then server
    else if leb 400 status
    then validation
    else unknown

-- `getErrorMessage` of what `apiFetch` throws: an `ApiError`, which has a status, or what `fetch`
-- rejects with, which has none
unfoldable pub get_error_message : Outcome → Option ErrorMessage
unfolding error_messages message_of_status includes
get_error_message (returned value) = none
get_error_message (thrown_api e) = some (error_messages (message_of_status e.status))
get_error_message (thrown is_type_error name message) =
    if is_type_error && includes message (codes "Failed to fetch")
    then some (error_messages network)
    else if text_eq name (codes "AbortError")
    then some (error_messages timeout)
    else some (error_messages unknown)
