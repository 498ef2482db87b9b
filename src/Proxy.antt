-- ===== src/Proxy.antt =====
-- The request gate of frontend/src/proxy.ts: the rate limiter with its per-address table, the
-- session gate, the origin check, the CSRF check and the headers of the response.
pub mod RateLimit
pub mod Cleared
pub mod Gate
mod Tests
use Prim.Native.Char.{Char, code}
use min_demo.Base.{
  trim, ◌==◌, ℕ, ◌+◌, String, Bool, true, false, not, ◌&&◌, ◌||◌, Option, none, some, List, [], ◌∷◌,
  str_eq, starts_with, truthy, present, leb, any, if◌then◌else◌, get_or_else, ◌++◌,
}

abbrev pub rate_limit_window_ms : ℕ
rate_limit_window_ms = 60000

abbrev pub rate_limit_max : ℕ
rate_limit_max = 100

pub record RateEntry : Type 0 where
  pub count : ℕ
  pub reset_at : ℕ

-- The `Map` `rateCounts`, as an association list whose first entry for a key counts.
abbrev pub RateCounts : Type 0
RateCounts = List (String × RateEntry)

unfoldable pub get : String → RateCounts → Option RateEntry
get ip [] = none
get ip ((k, e) ∷ m) = if str_eq k ip then some e else get ip m

unfoldable pub put : String → RateEntry → RateCounts → RateCounts
put ip e [] = (ip, e) ∷ []
put ip e ((k, d) ∷ m) = if str_eq k ip then (k, e) ∷ m else (k, d) ∷ put ip e m

-- The entry that a call at time `now` leaves, by the entry that it finds.
unfoldable pub next_entry : ℕ → Option RateEntry → RateEntry
next_entry now none = record { count = 1; reset_at = now + rate_limit_window_ms }
next_entry now (some e) =
    if leb e.reset_at now
    then record { count = 1; reset_at = now + rate_limit_window_ms }
    else record e { count = e.count + 1 }

-- `entry.count <= RATE_LIMIT_MAX`; a new entry holds 1, so its answer is `true` as well.
unfoldable pub check_rate_limit : String → ℕ → RateCounts → Bool × RateCounts
unfolding next_entry
check_rate_limit ip now m =
    let e = next_entry now (get ip m) in (leb e.count rate_limit_max, put ip e m)

-- What the gate reads of a request. `forwarded` is the header `x-forwarded-for`; an absent header
-- or cookie is `none`.
pub record Request : Type 0 where
  pub pathname : String
  pub own_origin : String
  pub http_method : String
  pub forwarded : Option String
  pub origin : Option String
  pub session_cookie : Option String
  pub csrf_cookie : Option String
  pub csrf_header : Option String

pub record Env : Type 0 where
  pub client_id : Option String
  pub client_secret : Option String
  pub instance_url : Option String

pub data Outcome : Type 0 where
  rejected : (status : ℕ) (error error_code : String) → Outcome
  blocked : (status : ℕ) (error : String) → Outcome
  passed : (headers : List (String × String)) → Outcome

abbrev pub member : String → List String → Bool
member s xs = any (str_eq s) xs

abbrev pub mutation_methods : List String
mutation_methods = "POST" ∷ "PUT" ∷ "DELETE" ∷ "PATCH" ∷ []

abbrev pub csrf_exempt : List String
csrf_exempt =
    "/api/salesforce/callback" ∷ "/api/salesforce/connection" ∷ "/api/csrf" ∷ "/api/pdf/compliance"
    ∷ "/api/pdf/dashboard" ∷ "/api/pdf/operations" ∷ "/api/pdf" ∷ []

abbrev pub session_exempt : List String
session_exempt =
    "/api/salesforce/auth" ∷ "/api/salesforce/callback" ∷ "/api/salesforce/connection" ∷ "/api/csrf"
    ∷ "/api/pdf" ∷ "/api/pdf/compliance" ∷ "/api/pdf/dashboard" ∷ "/api/pdf/operations"
    ∷ "/api/health" ∷ []

-- `s.split(",")[0]`.
unfoldable pub before_comma : String → String
before_comma String.[] = ""
before_comma (String.◌∷◌ c s) =
    let rest = before_comma s in if code c == 44 then "" else String.◌∷◌ c rest

-- `…?.split(",")[0]?.trim() || "unknown"`.
abbrev pub client_ip : Request → String
client_ip r =
    let ip = trim (before_comma (get_or_else r.forwarded "")) in if truthy ip then ip else "unknown"

abbrev pub has_env_creds : Env → Bool
has_env_creds v = present v.client_id && (present v.client_secret && present v.instance_url)

abbrev pub same_text : Option String → Option String → Bool
same_text none none = true
same_text none (some t) = false
same_text (some s) none = false
same_text (some s) (some t) = str_eq s t

abbrev pub csrf_ok : Request → Bool
csrf_ok r =
    present r.csrf_cookie && (present r.csrf_header && same_text r.csrf_cookie r.csrf_header)

-- `requestOrigin && requestOrigin !== origin`.
abbrev pub cross_origin : Request → Bool
cross_origin r = present r.origin && not (same_text r.origin (some r.own_origin))

abbrev pub security_headers : List (String × String)
security_headers =
    ("X-Content-Type-Options", "nosniff")
    ∷ ("X-Frame-Options", "DENY")
    ∷ ("X-XSS-Protection", "1; mode=block")
    ∷ ("Referrer-Policy", "strict-origin-when-cross-origin")
    ∷ ("Strict-Transport-Security", "max-age=31536000; includeSubDomains")
    ∷ ("Permissions-Policy", "camera=(), microphone=(), geolocation=(), payment=()")
    ∷ (
      "Content-Security-Policy-Report-Only",
      "default-src 'self'; script-src 'self' 'unsafe-inline' 'unsafe-eval'; style-src 'self' 'unsafe-inline'; img-src 'self' data: blob:; font-src 'self' data:; connect-src 'self' *.salesforce.com *.force.com *.docusign.net; frame-ancestors 'none'",
    )
    ∷ []

abbrev pub no_store : List (String × String)
no_store =
    ("Cache-Control", "no-store, no-cache, must-revalidate, private") ∷ ("Pragma", "no-cache") ∷ []

unfoldable pub response_headers : String → List (String × String)
response_headers pathname =
    if starts_with pathname "/api/salesforce" || starts_with pathname "/api/pdf/"
    then security_headers ++ no_store
    else security_headers

-- The checks behind the rate limiter, in their order.
unfoldable pub gate : Env → Request → Outcome
gate v r =
    if not (member r.pathname session_exempt)
      && (not (present r.session_cookie) && not (has_env_creds v))
    then rejected 401 "Not authenticated" "AUTH_REQUIRED"
    else if cross_origin r && not (starts_with r.pathname "/api/salesforce/callback")
    then blocked 403 "Cross-origin request blocked"
    else if member r.http_method mutation_methods
        && (not (member r.pathname csrf_exempt) && not (csrf_ok r))
    then rejected 403 "CSRF validation failed" "CSRF_ERROR"
    else passed (response_headers r.pathname)

limited : Bool → Env → Request → Outcome
limited false v r = rejected 429 "Rate limit exceeded" "RATE_LIMITED"
limited true v r = gate v r

-- `proxy`, with the table of the rate limiter as its state. A path that is not an API route goes
-- on with no header set and leaves the table alone.
unfoldable pub proxy : Env → ℕ → Request → RateCounts → Outcome × RateCounts
unfolding limited
proxy v now r m =
    let (allowed, m') = check_rate_limit (client_ip r) now m in
    if starts_with r.pathname "/api/" then (limited allowed v r, m') else (passed [], m)
