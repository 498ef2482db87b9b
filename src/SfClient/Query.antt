-- ===== src/SfClient/Query.antt =====
-- `extractSFError`, `query` and `queryPaginated` of frontend/src/lib/sf-client.ts. The network is
-- the section's parameter: what each attempt for a URL gives. A body that is no JSON is `none`.
pub mod Paging
use Prim.Native.Nat.{zero, suc}
use min_demo.Base.{
  ℕ, Bool, true, false, not, ◌&&◌, ◌++◌, String, Option, none, some, List, [], length, ltb, leb,
  present, truthy, get_or_else, if◌then◌else◌,
}
use min_demo.SfClient.Fetch.{
  Attempt, Fetched, fetched, timed_out, rethrown, fell_through, Run, sf_fetch,
}

-- The shapes that an error body has for `extractSFError`: an array with the `message` of its first
-- entry, an object with the three fields that are strings, or anything else.
pub data ErrorBody : Type 0 where
  array : Option String → ErrorBody
  object : (message error_description error : Option String) → ErrorBody
  other : ErrorBody

-- Of two optional texts the first that is there.
abbrev pub or_text : Option String → String → String
or_text none d = d
or_text (some s) d = s

unfoldable pub extract_sf_error : ErrorBody → String → String
extract_sf_error (array none) fallback = fallback
extract_sf_error (array (some m)) fallback = if truthy m then m else fallback
extract_sf_error (object message description error) fallback =
    or_text message (or_text description (or_text error fallback))
extract_sf_error other fallback = fallback

-- `response.ok`.
abbrev pub is_ok : ℕ → Bool
is_ok status = leb 200 status && ltb status 300

pub record Body {ℓ} (R : Type ℓ) : Type ℓ where
  pub records : Option (List R)
  pub total_size : Option ℕ
  pub is_done : Option Bool
  pub next_records_url : Option String
  pub error_view : ErrorBody

-- What a call of `query` ends with: the value, the `SFQueryError`, or what `sfFetch` or the
-- JSON parser threw.
pub data QueryResult {ℓ} (A : Type ℓ) : Type ℓ where
  found : A → QueryResult A
  query_error : String → ℕ → QueryResult A
  fetch_threw : QueryResult A
  not_json : QueryResult A

pub record PaginatedResult {ℓ} (R : Type ℓ) : Type ℓ where
  pub records : List R
  pub total_size : ℕ
  pub is_done : Bool

abbrev pub max_query_records : ℕ
max_query_records = 10000

module _ {ℓ} {R : Type ℓ} where
  -- `result.records || []`.
  abbrev pub records_of : Body R → List R
  records_of b = get_or_else b.records []

  -- `!result.done && result.nextRecordsUrl`.
  abbrev pub more_url : Body R → Option String
  more_url b =
      if not (get_or_else b.is_done false) && present b.next_records_url
      then b.next_records_url
      else none

  unfoldable pub capped_url : List R → Body R → Option String
  capped_url acc b = if ltb (length acc) max_query_records then more_url b else none

  -- One round of the loop, by what the next page's call gave; a page that is not `ok` breaks off.
  after_page :
      (List R → Body R → Option (QueryResult (List R)))
      → List R
      → Fetched (Option (Body R))
      → Option (QueryResult (List R))
  after_page go acc (fetched status none) = if is_ok status then some not_json else some (found acc)
  after_page go acc (fetched status (some b)) =
      if is_ok status then go (acc ++ records_of b) b else some (found acc)
  after_page go acc _ = some fetch_threw

  -- `queryPaginated` after the call: the page's records with what the CRM says of the rest.
  pub paginated : Fetched (Option (Body R)) → QueryResult (PaginatedResult R)
  paginated (fetched status none) = not_json
  paginated (fetched status (some b)) =
      if is_ok status
      then found (record {
        records = records_of b;
        total_size = get_or_else b.total_size 0;
        is_done = get_or_else b.is_done true;
      })
      else query_error (extract_sf_error b.error_view "Query failed") status
  paginated _ = fetch_threw

module _ {ℓ} {R : Type ℓ} (net : String → ℕ → Attempt (Option (Body R))) where
  -- The `while` loop, on fuel: `none` means that the fuel ran out.
  query_loop : ℕ → List R → Body R → Option (QueryResult (List R))
  query_loop zero acc b = none
  query_loop (suc fuel) acc b = elim (capped_url acc b) [
    | none ↦ some (found acc)
    | some url ↦ after_page (query_loop fuel) acc (sf_fetch (net url)).outcome
  ]

  first_page : ℕ → Fetched (Option (Body R)) → Option (QueryResult (List R))
  first_page fuel (fetched status none) = some not_json
  first_page fuel (fetched status (some b)) =
      if is_ok status
      then query_loop fuel (records_of b) b
      else some (query_error (extract_sf_error b.error_view "Query failed") status)
  first_page fuel _ = some fetch_threw

  unfoldable pub query : ℕ → String → Option (QueryResult (List R))
  unfolding first_page query_loop after_page capped_url
  query fuel url = first_page fuel (sf_fetch (net url)).outcome

  unfoldable pub query_paginated : String → QueryResult (PaginatedResult R)
  unfolding paginated
  query_paginated url = paginated (sf_fetch (net url)).outcome
