-- ===== src/Proxy/Tests.antt =====
-- The request gate at concrete requests.
use Prim.Native.Nat.{min}
use min_demo.Base.{
  trim, ◌+◌, ◌≤◌, ◌≡◌, refl, ◌↔◌, none, some, List, [], ◌∷◌, ◌++◌, arith, inl, replicate,
}
use min_demo.Proxy.{
  before_comma, Env, Request, passed, rejected, RateEntry, gate, proxy, response_headers,
  rate_limit_max, get, put, security_headers, check_rate_limit,
}
use min_demo.Proxy.Cleared.{IsCleared}
use min_demo.Proxy.Gate.{gate_iff, proxy_passed}
use min_demo.Proxy.RateLimit.{Call, requests, allowed, allowed-window}

abbrev no_creds : Env
no_creds = record { client_id = none; client_secret = none; instance_url = none }

abbrev post_tasks : Request
post_tasks = record {
  pathname = "/api/salesforce";
  own_origin = "https://min.example";
  http_method = "POST";
  forwarded = some " 10.0.0.1 , 10.9.9.9";
  origin = some "https://min.example";
  session_cookie = some "sealed";
  csrf_cookie = some "a1b2";
  csrf_header = some "a1b2";
}

abbrev forged : Request
forged = record post_tasks { csrf_header = some "ffff" }

post_tasks_passes :
    (proxy no_creds 1000 post_tasks []).0 ≡ passed (response_headers "/api/salesforce")
unfolding proxy check_rate_limit get gate
post_tasks_passes = refl

forged_fails :
    (proxy no_creds 1000 forged []).0 ≡ rejected 403 "CSRF validation failed" "CSRF_ERROR"
unfolding proxy check_rate_limit get gate
forged_fails = refl

gate_iff_example :
    (gate no_creds post_tasks ≡ passed (response_headers "/api/salesforce"))
    ↔ IsCleared no_creds post_tasks
gate_iff_example = gate_iff no_creds post_tasks

proxy_passed_example :
    IsCleared no_creds post_tasks
    × ((e : RateEntry) × (get "10.0.0.1" (proxy no_creds 1000 post_tasks []).1 ≡ some e)
        × (e.count ≤ rate_limit_max))
    × (response_headers "/api/salesforce" ≡ response_headers "/api/salesforce")
unfolding trim before_comma
proxy_passed_example =
    proxy_passed no_creds 1000 post_tasks [] (response_headers "/api/salesforce") refl
      post_tasks_passes

abbrev get_packet : Request
get_packet = record post_tasks { pathname = "/api/pdf" }

get_packet_passes : (proxy no_creds 1000 get_packet []).0 ≡ passed security_headers
unfolding proxy check_rate_limit get gate response_headers
get_packet_passes = refl

abbrev two_clients : List Call
two_clients = ("b", 2000) ∷ ("a", 3000) ∷ ("b", 4000) ∷ []

allowed-window_example :
    allowed "a" (("a", 1000) ∷ two_clients) [] ≡ min (1 + requests "a" two_clients) rate_limit_max
unfolding get
allowed-window_example = allowed-window "a" 1000 two_clients [] (inl refl) (omega arith)

-- The window is fixed and does not slide: 100 calls at the end of one window and 100 at the start
-- of the next are all let through, within two milliseconds.
abbrev burst : List Call
burst = ("a", 1000) ∷ (replicate 99 ("a", 60999) ++ replicate 100 ("a", 61000))

allowed-burst : allowed "a" burst [] ≡ 200
unfolding allowed check_rate_limit get put
allowed-burst = refl
