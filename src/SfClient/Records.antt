-- ===== src/SfClient/Records.antt =====
-- `create`, `update` and `createContactsBatch` of frontend/src/lib/sf-client.ts.
use min_demo.Base.{
  ℕ, String, Bool, true, Option, none, some, List, [], ◌∷◌, map, if◌then◌else◌, truthy, units, ◌<>◌,
}
use min_demo.SfClient.Ids.{str, is_valid_salesforce_id}
use min_demo.SfClient.Fetch.{Attempt, Fetched, fetched, timed_out, rethrown, fell_through, sf_fetch}
use min_demo.SfClient.Query.{ErrorBody, extract_sf_error, is_ok}

pub record Context : Type 0 where
  pub access_token : String
  pub instance_url : String
  pub api_version : String

-- A request with its data, of any type.
pub record Request (D : Type 0) : Type 0 where
  pub http_method : String
  pub url : String
  pub headers : List (String × String)
  pub body : D

-- What the body of a reply is read as.
pub record Reply : Type 0 where
  pub id : String
  pub error_view : ErrorBody

-- What a call ends with: the record, the `SFMutationError`, the `SFValidationError`, what `sfFetch`
-- threw, or what the JSON parser threw.
pub data Mutation : Type 0 where
  written : (id url : String) → Mutation
  mutation_error : (message : String) (status : ℕ) (object_type : String) → Mutation
  invalid : Mutation
  fetch_threw : (message : String) → Mutation
  not_json : Mutation

-- The requests that go to `sfFetch`, one or none, and the end of the call.
pub record Sent (D : Type 0) : Type 0 where
  pub request : Option (Request D)
  pub outcome : Mutation

abbrev bearer : Context → String × String
bearer ctx = ("Authorization", "Bearer " <> ctx.access_token)

abbrev json_type : String × String
json_type = ("Content-Type", "application/json")

abbrev pub sobjects_url : Context → String → String
sobjects_url ctx object_type =
    ctx.instance_url <> ("/services/data/" <> (ctx.api_version <> ("/sobjects/" <> object_type)))

abbrev pub record_url : Context → String → String
record_url ctx id = ctx.instance_url <> ("/" <> id)

abbrev timeout_message : String → String
timeout_message url = "Salesforce request timed out after 30000ms: " <> url

-- `body` is `none` where the reply is no JSON.
unfoldable pub create_outcome : Context → String → Fetched (Option Reply) → Mutation
create_outcome ctx object_type (fetched status none) = not_json
create_outcome ctx object_type (fetched status (some b)) =
    if is_ok status
    then written b.id (record_url ctx b.id)
    else mutation_error (extract_sf_error b.error_view ("Failed to create " <> object_type)) status
        object_type
create_outcome ctx object_type timed_out =
    fetch_threw (timeout_message (sobjects_url ctx object_type))
create_outcome ctx object_type (rethrown message) = fetch_threw message
create_outcome ctx object_type fell_through = fetch_threw "SF fetch failed after retries"

abbrev failed_update : String → ℕ → Option Reply → Mutation
failed_update object_type status none = not_json
failed_update object_type status (some b) =
    mutation_error (extract_sf_error b.error_view ("Failed to update " <> object_type)) status
      object_type

-- An update reads the body only where it failed.
unfoldable pub update_outcome : Context → String → String → Fetched (Option Reply) → Mutation
update_outcome ctx object_type id (fetched status body) =
    if is_ok status then written id (record_url ctx id) else failed_update object_type status body
update_outcome ctx object_type id timed_out =
    fetch_threw (timeout_message (sobjects_url ctx object_type <> ("/" <> id)))
update_outcome ctx object_type id (rethrown message) = fetch_threw message
update_outcome ctx object_type id fell_through = fetch_threw "SF fetch failed after retries"

module _ {D : Type 0} (net : Request D → ℕ → Attempt (Option Reply)) where
  unfoldable pub create : Context → String → D → Bool → Sent D
  create ctx object_type body allow_duplicates =
      let request : Request D = record {
        http_method = "POST";
        url = sobjects_url ctx object_type;
        headers =
            bearer ctx
            ∷ json_type
            ∷ (if allow_duplicates
                then ("Sforce-Duplicate-Rule-Header", "allowSave=true") ∷ []
                else []);
        body = body;
      } in
      record {
        request = some request;
        outcome = create_outcome ctx object_type (sf_fetch (net request)).outcome;
      }

  unfoldable pub update : Context → String → String → D → Sent D
  update ctx object_type id body =
      let request : Request D = record {
        http_method = "PATCH";
        url = sobjects_url ctx object_type <> ("/" <> id);
        headers = bearer ctx ∷ json_type ∷ [];
        body = body;
      } in
      if is_valid_salesforce_id (str (units id))
      then record {
        request = some request;
        outcome = update_outcome ctx object_type id (sf_fetch (net request)).outcome;
      }
      else record { request = none; outcome = invalid }

pub record ContactInput : Type 0 where
  pub first_name : String
  pub last_name : String
  pub email : String
  pub phone : String
  pub account_id : String

pub record NamedRecord : Type 0 where
  pub id : String
  pub url : String
  pub name : String

pub record ContactBatch : Type 0 where
  pub records : List NamedRecord
  pub errors : List String

abbrev pub contact_name : ContactInput → String
contact_name c = c.first_name <> (" " <> c.last_name)

abbrev or_failed : String → String
or_failed message = if truthy message then message else "Contact create failed"

abbrev add_record : NamedRecord → ContactBatch → ContactBatch
add_record r b = record b { records = r ∷ b.records }

abbrev add_error : String → ContactBatch → ContactBatch
add_error e b = record b { errors = e ∷ b.errors }

-- `json_message` is the message of the parser's error.
module _ (json_message : String) where
  abbrev pub add_settled : ContactInput → Mutation → ContactBatch → ContactBatch
  add_settled c (written id url) b =
      add_record (record { id = id; url = url; name = contact_name c }) b
  add_settled c (mutation_error message status object_type) b = add_error (or_failed message) b
  add_settled c invalid b = add_error "Contact create failed" b
  add_settled c (fetch_threw message) b = add_error (or_failed message) b
  add_settled c not_json b = add_error (or_failed json_message) b

  -- The results of `Promise.allSettled`, in the order of the contacts.
  unfoldable pub settle : List ContactInput → List Mutation → ContactBatch
  settle [] outcomes = record { records = []; errors = [] }
  settle (c ∷ cs) [] = record { records = []; errors = [] }
  settle (c ∷ cs) (o ∷ outcomes) = add_settled c o (settle cs outcomes)

  unfoldable pub create_contacts_batch :
      (ContactInput → ℕ → Attempt (Option Reply)) → Context → List ContactInput → ContactBatch
  create_contacts_batch net ctx contacts = settle contacts (
      map (λ c. (create (λ (r : Request ContactInput). net r.body) ctx "Contact" c true).outcome)
        contacts)
