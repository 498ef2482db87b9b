-- ===== src/SfCall/Tests.antt =====
-- Concrete inputs for the CSRF tokens and for `callSF`.
use min_demo.Base.{
  ℕ, zero, suc, ◌≡◌, ◌≢◌, refl, ◌↔◌, String, true, false, none, some, List, [], ◌∷◌, ◌++◌, arith,
  Text, units,
}
use min_demo.Types.{advisor}
use min_demo.SfCall.Csrf.{generate_csrf_token, validate_csrf_token, same_token, mismatch_from}
use min_demo.SfCall.Csrf.Validity.{validate_csrf_token_iff, validate-generate}
use min_demo.SfCall.Response.{
  Raw, flat, unreadable, SfResponse, success_response, error_response, normalize_response,
  read_error, guess_error_code, user_friendly_error,
}
use min_demo.SfCall.Call.{
  CsrfReply, issued, Reply, response, parsed, not_json, Post, Link, send, post, get_csrf_token,
  verdict, is_transient_status, call_sf, call_from,
}
use min_demo.SfCall.Call.Rounds.{Served, call_sf-Served, refreshed}

token_text : generate_csrf_token (0 ∷ 171 ∷ 255 ∷ []) ≡ units "00abff"
unfolding generate_csrf_token
token_text = refl

token_differs : validate_csrf_token (some (units "00ab")) (some (units "00bb")) ≡ false
unfolding validate_csrf_token same_token mismatch_from
token_differs = refl

abbrev as_is : Text → Text
as_is s = s

abbrev limited : Raw
limited = record {
  success = false;
  error = flat "Rate limit exceeded";
  error_code = some "RATE_LIMITED";
  payload = "";
}

-- The proxy's own code is not what the caller gets.
limited_read :
    normalize_response as_is limited ≡ error_response "Rate limit exceeded" "INTERNAL_ERROR" ""
unfolding normalize_response read_error guess_error_code
limited_read = refl

friendly : user_friendly_error "VALIDATION_ERROR" none ≡ "Please check your input and try again."
unfolding user_friendly_error
friendly = refl

abbrev refused : Raw
refused = record {
  success = false;
  error = flat "CSRF validation failed";
  error_code = some "CSRF_ERROR";
  payload = "";
}

abbrev stored : Raw
stored = record { success = true; error = unreadable; error_code = none; payload = "{}" }

-- The first attempt is refused, the second meets a transient error, the third succeeds.
abbrev bumpy : ℕ → Reply
bumpy zero = response 403 (parsed refused)
bumpy (suc zero) = response 503 not_json
bumpy (suc (suc n)) = response 200 (parsed stored)

abbrev tokens : ℕ → CsrfReply
tokens zero = issued "old"
tokens (suc n) = issued "new"

abbrev fresh_link : Link
fresh_link = record {
  csrf_token = none;
  current_role = some advisor;
  csrf_requests = 0;
  posts = [];
  waited = 0;
}

abbrev posted : String → Post
posted t = record { csrf_header = some t; role_header = some advisor }

bumpy_call :
    call_sf as_is tokens bumpy fresh_link
    ≡ some (
      success_response stored,
      record {
        csrf_token = some "new";
        current_role = some advisor;
        csrf_requests = 2;
        posts = posted "old" ∷ posted "new" ∷ posted "new" ∷ [];
        waited = 1200;
      },
    )
unfolding call_sf call_from send post get_csrf_token verdict is_transient_status normalize_response
    read_error guess_error_code
bumpy_call = refl

validate_csrf_token_iff_example :
    (validate_csrf_token (some (units "ab")) (some (units "ab")) ≡ true) ↔ (
      (token : Text) × (token ≢ [])
      × (some (units "ab") ≡ some token)
      × (some (units "ab") ≡ some token))
validate_csrf_token_iff_example = validate_csrf_token_iff (some (units "ab")) (some (units "ab"))

validate-generate_example :
    (validate_csrf_token
        (some (generate_csrf_token (7 ∷ 8 ∷ [])))
        (some (generate_csrf_token (7 ∷ 9 ∷ [])))
      ≡ true)
    ↔ ◌≡◌ {A = List ℕ} (7 ∷ 8 ∷ []) (7 ∷ 9 ∷ [])
validate-generate_example =
    validate-generate 7 (8 ∷ []) (7 ∷ 9 ∷ []) (omega arith, (omega arith, tt))
      (omega arith, (omega arith, tt))

call_sf-Served_example :
    (s : Served as_is tokens bumpy 2 0 1800 4 fresh_link) × (call_sf as_is tokens bumpy fresh_link
      ≡ some (s.result, s.link'))
call_sf-Served_example = call_sf-Served as_is tokens bumpy fresh_link

refreshed_example :
    (l : Link) × (r : SfResponse) × (rest : List Post) × (call_sf as_is tokens bumpy fresh_link
      ≡ some (r, l))
    × (l.posts ≡ (send tokens fresh_link).posts ++ posted "new" ∷ rest)
unfolding send post get_csrf_token
refreshed_example = refreshed as_is tokens bumpy fresh_link refused "new" refl refl refl refl
