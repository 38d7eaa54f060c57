-- ===== src/Api/Errors.antt =====
-- notification-admin-ui/src/api/client.ts: `ApiError` and how a reply becomes one.
use Prim.Native.Char.{code}
use Prim.Native.String.{[], ◌∷◌, ◌++◌}
use notification_platform.Base.{
  ℕ, String, Bool, false, Option, none, some, ◌==◌, leb, if◌then◌else◌, text_or_nil, or_text,
  is_space, trim,
}
use notification_platform.Auth.Permissions.{Principal}

-- The fields of a reply's JSON that the client reads; `none` is an absent field. A reply that is no
-- JSON reads as one with no field.
pub record Body : Type 0 where
  pub message : Option String
  pub error : Option String
  pub detail : Option String
  pub access_token : Option String
  pub refresh_token : Option String
  pub user : Option Principal

pub record Response : Type 0 where
  pub status : ℕ
  pub status_text : String
  pub body : Body

-- `response.ok`
abbrev pub ok_status : ℕ → Bool
ok_status status = if leb 200 status then leb status 299 else false

-- `STATUS_ERROR_CODES`
unfoldable pub status_error_codes : ℕ → Option String
status_error_codes status =
    if status == 400
    then some "VALIDATION_ERROR"
    else if status == 401
    then some "AUTHENTICATION_ERROR"
    else if status == 403
    then some "AUTHORIZATION_ERROR"
    else if status == 404
    then some "NOT_FOUND"
    else if status == 409
    then some "CONFLICT"
    else if status == 422
    then some "VALIDATION_ERROR"
    else if status == 429
    then some "RATE_LIMITED"
    else none

abbrev or_default : Option String → ℕ → String
or_default (some c) status = c
or_default none status = if leb 500 status then "SERVER_ERROR" else "REQUEST_ERROR"

unfoldable pub error_code_for_status : ℕ → String
unfolding status_error_codes
error_code_for_status status = or_default (status_error_codes status) status

-- `.replace(/\s+/g, ' ')`; the flag tells that the text before ends in white space.
squeeze : Bool → String → String
squeeze after [] = ""
squeeze after (c ∷ s) =
    let rest = squeeze (is_space (code c)) s in
    if is_space (code c) then (if after then rest else " " ++ rest) else c ∷ rest

unfoldable pub clean_server_message : Body → String → String
unfolding squeeze
clean_server_message b status_text = trim (
    squeeze false (
      or_text (text_or_nil b.message) (
        or_text (text_or_nil b.error)
          (or_text (text_or_nil b.detail) (or_text status_text "Request failed")))))

pub record ApiError : Type 0 where
  pub status : ℕ
  pub code : String
  pub detail : String

-- What a call may throw: an `ApiError`, any other `Error` with its message, or another value.
pub data Thrown : Type 0 where
  api : ApiError → Thrown
  other : String → Thrown
  foreign : Thrown

-- The `message` that the constructor of `ApiError` composes; `show` prints a number.
abbrev pub api_message : (ℕ → String) → ApiError → String
api_message show e = e.code ++ " (" ++ show e.status ++ "): " ++ e.detail

-- `getErrorMessage`
unfoldable pub get_error_message : (ℕ → String) → Thrown → String → String
get_error_message show (api e) fallback = api_message show e
get_error_message show (other message) fallback = message
get_error_message show foreign fallback = fallback

unfoldable pub error_of_response : Response → ApiError
error_of_response r = record {
  status = r.status;
  code = error_code_for_status r.status;
  detail = clean_server_message r.body r.status_text;
}
