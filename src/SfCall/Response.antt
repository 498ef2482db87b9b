-- ===== src/SfCall/Response.antt =====
-- The responses of the Salesforce route as the client reads them, frontend/src/lib/sf-response.ts.
-- An error code is a string, since the server's is taken over unread.
use min_demo.Base.{
  String, Bool, ◌||◌, Option, none, some, if◌then◌else◌, truthy, includes, units, Text, str_eq,
}

-- `raw.error`: an object with what it has of a code and a message, a string, or anything else.
pub data RawError : Type 0 where
  structured : (code message : Option String) → RawError
  flat : String → RawError
  unreadable : RawError

-- What is read of the parsed JSON: whether `success` is `true`, the error, the top-level code, and
-- the other fields, which are passed on.
pub record Raw : Type 0 where
  pub success : Bool
  pub error : RawError
  pub error_code : Option String
  pub payload : String

pub data SfResponse : Type 0 where
  success_response : Raw → SfResponse
  error_response : (error error_code payload : String) → SfResponse

-- `a || b` on a string that may be missing.
abbrev pub or_text : Option String → String → String
or_text none t = t
or_text (some s) t = if truthy s then s else t

abbrev says : Text → String → Bool
says m w = includes (units w) m

module _ (lower : Text → Text) where
  unfoldable pub guess_error_code : String → String
  guess_error_code message =
      let m = lower (units message) in
      if says m "network" || says m "fetch"
      then "NETWORK_ERROR"
      else if says m "non-json"
      then "PARSE_ERROR"
      else if says m "auth" || (says m "token" || says m "session")
      then "AUTH_FAILED"
      else if says m "invalid" || (says m "missing" || says m "required")
      then "VALIDATION_ERROR"
      else "INTERNAL_ERROR"

  -- The message and the code of a response that is no success.
  unfoldable pub read_error : RawError → String × String
  read_error (structured code message) =
      (or_text message "Unknown error", or_text code "INTERNAL_ERROR")
  read_error (flat message) = (message, guess_error_code message)
  read_error unreadable = ("Unknown error", "INTERNAL_ERROR")

  unfoldable pub normalize_response : Raw → SfResponse
  normalize_response raw =
      let read = read_error raw.error in
      if raw.success then success_response raw else error_response (read.0) (read.1) raw.payload

unfoldable pub user_friendly_error : String → Option String → String
user_friendly_error code detail =
    if str_eq code "VALIDATION_ERROR"
    then or_text detail "Please check your input and try again."
    else if str_eq code "SF_QUERY_FAILED"
    then "Couldn't load data from Salesforce. Please try again."
    else if str_eq code "SF_MUTATION_FAILED"
    then "Couldn't save to Salesforce. Please try again."
    else if str_eq code "AUTH_FAILED"
    then "Salesforce connection expired. Please reconnect in Settings."
    else if str_eq code "NETWORK_ERROR"
    then "Can't reach the server. Check your connection."
    else if str_eq code "PARSE_ERROR"
    then "Received an unexpected response. Please try again."
    else if str_eq code "UNKNOWN_ACTION"
    then "Something went wrong. Please refresh and try again."
    else "Something went wrong. Please try again."
