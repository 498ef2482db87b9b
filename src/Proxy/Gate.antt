-- ===== src/Proxy/Gate.antt =====
-- What a request that `proxy` of frontend/src/proxy.ts lets through has shown.
use min_demo.Base.{
  ℕ, ◌≤◌, ◌≡◌, refl, Bool, true, false, String, Option, none, some, List, [], ◌∷◌, arith, str_eq,
  starts_with, ◌⊎◌, ◌↔◌, present, ◌&&◌, not, ap, if◌then◌else◌, leb→le, ◌∙◌,
}
use min_demo.Proxy.RateLimit.{check_rate_limit_self}
use min_demo.Proxy.{
  Env, Request, Outcome, passed, rejected, blocked, RateCounts, gate, proxy, limited, get,
  check_rate_limit, client_ip, mutation_methods, csrf_exempt, session_exempt, response_headers,
  member, csrf_ok, cross_origin, has_env_creds, security_headers, next_entry, RateEntry,
  rate_limit_max,
}
use min_demo.Proxy.Cleared.{IsCleared, Shown-IsCleared, IsCleared-Shown}

-- The tests of `gate`, over any values of them.
module _ (hs : List (String × String)) where
  ladder : Bool → Bool → Bool → Bool → Bool → Bool → Bool → Bool → Outcome
  ladder open_path cookie creds foreign callback mutation exempt token =
      if not open_path && (not cookie && not creds)
      then rejected 401 "Not authenticated" "AUTH_REQUIRED"
      else if foreign && not callback
      then blocked 403 "Cross-origin request blocked"
      else if mutation && (not exempt && not token)
      then rejected 403 "CSRF validation failed" "CSRF_ERROR"
      else passed hs

  ladder_iff :
      (open_path cookie creds foreign callback mutation exempt token : Bool)
      → (ladder open_path cookie creds foreign callback mutation exempt token ≡ passed hs) ↔ (
          ((open_path ≡ true) ⊎ ((cookie ≡ true) ⊎ (creds ≡ true)))
          × ((foreign ≡ false) ⊎ (callback ≡ true))
          × ((mutation ≡ false) ⊎ ((exempt ≡ true) ⊎ (token ≡ true))))
  unfolding ladder
  ladder_iff a b c d e f g h = (λ q. (ground arith, ground arith, ground arith), λ q. ground arith)

  ladder_headers :
      (open_path cookie creds foreign callback mutation exempt token : Bool)
      (given : List (String × String))
      → ladder open_path cookie creds foreign callback mutation exempt token ≡ passed given
      → given ≡ hs
  unfolding ladder
  ladder_headers a b c d e f g h given q = ground arith

-- The checks behind the rate limiter let a request through, with the headers of its path, exactly
-- when it is cleared: its path needs no session, or it has the connection cookie, or the environment
-- has all three credentials; it names no origin, or the application's own, or it goes to the OAuth
-- callback; and its method changes nothing, or its path is exempt, or it has the CSRF token in the
-- cookie and the same one in the header.
pub gate_iff :
    (v : Env) (r : Request) → (gate v r ≡ passed (response_headers r.pathname)) ↔ IsCleared v r
unfolding gate ladder
gate_iff v r =
    let (to, from) =
      ladder_iff (response_headers r.pathname) (member r.pathname session_exempt)
        (present r.session_cookie) (has_env_creds v) (cross_origin r)
        (starts_with r.pathname "/api/salesforce/callback") (member r.http_method mutation_methods)
        (member r.pathname csrf_exempt) (csrf_ok r) in
    (λ h. Shown-IsCleared v r (to h), λ c. from (IsCleared-Shown v r c))

-- `gate` passes with no other headers than those of the path.
gate_headers :
    (v : Env) (r : Request) (hs : List (String × String))
    → gate v r ≡ passed hs
    → hs ≡ response_headers r.pathname
unfolding gate ladder
gate_headers v r hs h =
    ladder_headers (response_headers r.pathname) (member r.pathname session_exempt)
      (present r.session_cookie) (has_env_creds v) (cross_origin r)
      (starts_with r.pathname "/api/salesforce/callback") (member r.http_method mutation_methods)
      (member r.pathname csrf_exempt) (csrf_ok r) hs h

limited_passed :
    (b : Bool) (v : Env) (r : Request) (hs : List (String × String))
    → limited b v r ≡ passed hs
    → (b ≡ true) × (gate v r ≡ passed hs)
unfolding limited
limited_passed false v r hs h = absurd (cc)
limited_passed true v r hs h = (refl, h)

-- A request to an API route that the proxy lets through is cleared, was counted and is among the
-- first 100 of its address's window, and its response has the headers of its path.
pub proxy_passed :
    (v : Env) (now : ℕ) (r : Request) (m : RateCounts) (hs : List (String × String))
    → starts_with r.pathname "/api/" ≡ true
    → (proxy v now r m).0 ≡ passed hs
    → IsCleared v r
      × ((e : RateEntry) × (get (client_ip r) (proxy v now r m).1 ≡ some e)
          × (e.count ≤ rate_limit_max))
      × (hs ≡ response_headers r.pathname)
unfolding proxy
proxy_passed v now r m hs api h =
    let ip = client_ip r in
    let (counted, answer) = check_rate_limit_self ip now m in
    let (free, through) =
      limited_passed (check_rate_limit ip now m).0 v r hs (rw (api, proxy) at h) in
    let same = gate_headers v r hs through in
    (
      (gate_iff v r).0 (rw (← same) through),
      (next_entry now (get ip m), rw api counted, leb→le _ _ (rw answer at free)),
      same,
    )

pub header : String → List (String × String) → Option String
header name [] = none
header name ((k, v) ∷ hs) = if str_eq k name then some v else header name hs

-- The onboarding packet of "/api/pdf", a path without a last slash, goes out with the security
-- headers alone: no response to it forbids caching.
pub pdf_cacheable :
    (v : Env) (now : ℕ) (r : Request) (m : RateCounts) (hs : List (String × String))
    → r.pathname ≡ "/api/pdf"
    → (proxy v now r m).0 ≡ passed hs
    → (hs ≡ security_headers) × (header "Cache-Control" hs ≡ none)
unfolding response_headers header
pdf_cacheable v now r m hs path h =
    let api : starts_with r.pathname "/api/" ≡ true = rw path refl in
    let plain : hs ≡ security_headers =
      (proxy_passed v now r m hs api h).2 ∙ ap response_headers path in
    (plain, rw plain refl)
