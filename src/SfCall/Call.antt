-- ===== src/SfCall/Call.antt =====
-- `callSF`, `_callSF` and `getCsrfToken` of frontend/src/lib/salesforce.ts, for one call at a time:
-- no other request for a token is under way. What the network does at each attempt, and what the
-- token route answers each time, are the parameters `net` and `csrf`.
pub mod Growth
pub mod Verdicts
pub mod Rounds
use min_demo.Base.{
  ℕ, zero, suc, ◌+◌, ◌*◌, ◌^◌, String, Bool, true, false, not, ◌&&◌, ◌||◌, Option, none, some, List,
  [], ◌∷◌, ◌++◌, ltb, ◌==◌, if◌then◌else◌, str_eq, truthy, present, show_ℕ, ◌<>◌, Text,
}
use min_demo.Types.{UserRole}
use min_demo.SfCall.Response.{SfResponse, error_response, Raw, normalize_response}

abbrev pub client_max_retries : ℕ
client_max_retries = 2

abbrev pub client_retry_base_ms : ℕ
client_retry_base_ms = 600

unfoldable pub is_transient_status : ℕ → Bool
is_transient_status status = status == 502 || (status == 503 || status == 504)

-- The text of a response: JSON, the JSON `null`, or not JSON. Reading a field of `null` throws an
-- error with the message given.
pub data Body : Type 0 where
  parsed : Raw → Body
  null_body : String → Body
  not_json : Body

-- One `fetch` with the reading of its text: a response, the abort of the 35 s timeout, or another
-- exception with its message.
pub data Reply : Type 0 where
  response : ℕ → Body → Reply
  aborted : Reply
  network_error : String → Reply

-- An answer of `/api/csrf`.
pub data CsrfReply : Type 0 where
  issued : String → CsrfReply
  unavailable : CsrfReply

-- The headers of one post that vary.
pub record Post : Type 0 where
  pub csrf_header : Option String
  pub role_header : Option UserRole

-- The module's variables, with the requests made and the time waited between them.
pub record Link : Type 0 where
  pub csrf_token : Option String
  pub current_role : Option UserRole
  pub csrf_requests : ℕ
  pub posts : List Post
  pub waited : ℕ

unfoldable pub set_current_role : Option UserRole → Link → Link
set_current_role role link = record link { current_role = role }

-- The token that an answer gives, and what it leaves of the module's variables.
abbrev pub answered : CsrfReply → Link → String × Link
answered (issued t) link =
    (t, record link { csrf_token = some t; csrf_requests = link.csrf_requests + 1 })
answered unavailable link = ("", record link { csrf_requests = link.csrf_requests + 1 })

-- The token that is kept, unless there is none or a new one is forced.
abbrev pub use_token : Bool → Option String → CsrfReply → Link → String × Link
use_token force none reply link = answered reply link
use_token force (some t) reply link =
    if truthy t && not force then (t, link) else answered reply link

-- `getCsrfToken(forceRefresh)`, with the token that it returns.
unfoldable pub get_csrf_token : (ℕ → CsrfReply) → Bool → Link → String × Link
get_csrf_token csrf force link = use_token force link.csrf_token (csrf link.csrf_requests) link

-- `...(token ? { "x-csrf-token": token } : {})`.
abbrev pub header_of : String → Option String
header_of t = if truthy t then some t else none

unfoldable pub post : String → Link → Link
post token link = record link {
  posts =
      link.posts ++ record { csrf_header = header_of token; role_header = link.current_role } ∷ [];
}

module _ (csrf : ℕ → CsrfReply) where
  -- The token, if need be, and the post of one attempt.
  unfoldable pub send : Link → Link
  send link = let got = get_csrf_token csrf false link in post (got.0) (got.1)

-- What an attempt comes to.
pub data Verdict : Type 0 where
  retry_after : ℕ → Verdict
  refresh_and_retry : Verdict
  done : SfResponse → Verdict

-- `CLIENT_RETRY_BASE_MS * Math.pow(2, attempt)`.
abbrev pub backoff : ℕ → ℕ
backoff attempt = client_retry_base_ms * 2 ^ attempt

abbrev pub failure : String → String → SfResponse
failure message code = error_response message code ""

abbrev pub is_csrf_error : Option String → Bool
is_csrf_error none = false
is_csrf_error (some code) = str_eq code "CSRF_ERROR"

module _ (lower : Text → Text) where
  -- What the `catch` makes of an exception other than the abort.
  abbrev thrown : ℕ → String → Verdict
  thrown attempt message =
      if ltb attempt client_max_retries
      then retry_after (backoff attempt)
      else done (failure message "NETWORK_ERROR")

  abbrev body_verdict : ℕ → ℕ → Body → Verdict
  body_verdict attempt status not_json =
      done (failure ("Server returned non-JSON response (" <> (show_ℕ status <> ")")) "PARSE_ERROR")
  body_verdict attempt status (parsed raw) =
      if status == 403 && (is_csrf_error raw.error_code && attempt == 0)
      then refresh_and_retry
      else done (normalize_response lower raw)
  body_verdict attempt status (null_body message) = thrown attempt message

  unfoldable pub verdict : ℕ → Reply → Verdict
  unfolding is_transient_status
  verdict attempt (response status body) =
      if is_transient_status status && ltb attempt client_max_retries
      then retry_after (backoff attempt)
      else body_verdict attempt status body
  verdict attempt aborted = done (failure "Request timed out. Please try again." "TIMEOUT")
  verdict attempt (network_error message) = thrown attempt message

module _ (lower : Text → Text) (csrf : ℕ → CsrfReply) (net : ℕ → Reply) where
  -- What follows an attempt; `again` is the next call of `_callSF`.
  abbrev follow : Verdict → (Link → Option (SfResponse × Link)) → Link → Option (SfResponse × Link)
  follow (retry_after ms) again link = again (record link { waited = link.waited + ms })
  follow refresh_and_retry again link = again (get_csrf_token csrf true link).1
  follow (done r) again link = some (r, link)

  -- `_callSF` on a number of calls left, `none` when they are used up.
  unfoldable pub call_from : ℕ → ℕ → Link → Option (SfResponse × Link)
  call_from zero attempt link = none
  call_from (suc left) attempt link =
      follow (verdict lower attempt (net attempt)) (λ l. call_from left (attempt + 1) l)
        (send csrf link)

  unfoldable pub call_sf : Link → Option (SfResponse × Link)
  unfolding call_from
  call_sf link = call_from 3 0 link
