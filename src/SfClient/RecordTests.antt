-- ===== src/SfClient/RecordTests.antt =====
-- The creates and updates of the Salesforce client at concrete inputs.
use min_demo.Base.{ℕ, ◌≡◌, ◌⊎◌, String, Option, none, some, units, ◌<>◌, if◌then◌else◌, str_eq}
use min_demo.SfClient.Ids.{str, IsSalesforceId}
use min_demo.SfClient.Fetch.{Attempt, response, aborted}
use min_demo.SfClient.Query.{array}
use min_demo.SfClient.Records.{Context, Request, Reply, invalid, sobjects_url, update, ContactInput}
use min_demo.SfClient.Writing.{update_guarded}

abbrev org : Context
org = record {
  access_token = "token";
  instance_url = "https://example.my.salesforce.com";
  api_version = "v59.0";
}

abbrev made : Reply
made = record { id = "003000000000001"; error_view = array none }

abbrev refusing : Request String → ℕ → Attempt (Option Reply)
refusing r attempt = response 400 (some made)

update_guarded_example :
    (((update refusing org "Task" "00T/../Account" "{}").request ≡ none)
      × ((update refusing org "Task" "00T/../Account" "{}").outcome ≡ invalid))
    ⊎ (IsSalesforceId (str (units "00T/../Account"))
        × ((r : Request String) × ((update refusing org "Task" "00T/../Account" "{}").request
              ≡ some r)
            × (r.url ≡ sobjects_url org "Task" <> ("/" <> "00T/../Account"))))
update_guarded_example = update_guarded refusing org "Task" "00T/../Account" "{}"

abbrev contact : String → ContactInput
contact name = record {
  first_name = name;
  last_name = "Smith";
  email = "";
  phone = "";
  account_id = "001000000000001";
}

-- The first contact times out, the second is created.
abbrev answers : ContactInput → ℕ → Attempt (Option Reply)
answers c attempt = if str_eq c.first_name "Jane" then aborted else response 201 (some made)
