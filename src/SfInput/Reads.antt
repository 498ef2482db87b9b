-- ===== src/SfInput/Reads.antt =====
-- The validators of the reading actions and of the financial accounts,
-- frontend/src/lib/sf-validation.ts.
use min_demo.Base.{
  ℕ, ◌+◌, Option, none, some, List, [], ◌∷◌, if◌then◌else◌, Text, ltb, ◌==◌, length, show_ℕ, ◌<>◌,
}
use Prim.Native.Nat.{min, max}
use min_demo.SfClient.Ids.{str, is_valid_salesforce_id}
use min_demo.SfInput.Json.{Json, undefined, text, array, object, Number, whole, below, infinite}
use min_demo.SfInput.Checks.{
  Validated, valid, invalid, ◌>>=◌, Fields, require_string, optional_string, require_sf_id,
  optional_sf_id, require_array, optional_array, optional_number, as_record,
}
use min_demo.SfInput.Inputs.{
  SearchHouseholdsInput, GetHouseholdDetailInput, QueryTasksInput, CreateFinancialAccountsInput,
  QueryFinancialAccountsInput, FinancialAccount,
}

-- `n || fallback`, then `Math.min(Math.max(n, low), high)`.
abbrev pub or_number : Number → ℕ → Number
or_number (whole n) fallback = if n == 0 then whole fallback else whole n
or_number (below n) fallback = below n
or_number infinite fallback = infinite

abbrev pub clamp : Number → ℕ → ℕ → ℕ
clamp (whole n) low high = min (max n low) high
clamp (below n) low high = min low high
clamp infinite low high = high

unfoldable pub search_households : Json → Validated SearchHouseholdsInput
search_households raw = do
  d ← as_record raw
  limit_raw ← optional_number d "limit" 10
  offset_raw ← optional_number d "offset" 0
  query ← require_string d "query" 100
  let limit = clamp (or_number limit_raw 10) 1 50
  let offset = clamp (or_number offset_raw 0) 0 2000
  valid record { query = query; limit = limit; offset = offset }

unfoldable pub query_tasks : Json → Validated QueryTasksInput
query_tasks raw = do
  d ← as_record raw
  limit_raw ← optional_number d "limit" 200
  offset_raw ← optional_number d "offset" 0
  let limit = clamp (or_number limit_raw 200) 1 500
  let offset = clamp (or_number offset_raw 0) 0 2000
  valid record { limit = limit; offset = offset }

unfoldable pub get_household_detail : Json → Validated GetHouseholdDetailInput
get_household_detail raw = do
  d ← as_record raw
  household_id ← require_sf_id d "householdId"
  valid record { household_id = household_id }

-- An item that is an object of any kind; an array has none of the fields that are read.
abbrev pub as_object : ℕ → Json → Validated Fields
as_object i (object d) = valid d
as_object i (array js) = valid (λ field. undefined)
as_object i _ = invalid ("accounts[" <> (show_ℕ i <> "] must be an object"))

unfoldable pub financial_account : ℕ → Json → Validated FinancialAccount
financial_account i raw = do
  d ← as_object i raw
  acct_type ← require_string d "type" 100
  owner ← require_string d "owner" 200
  amount ← optional_string d "amount" 50
  valid record { acct_type = acct_type; owner = owner; amount = amount }

unfoldable pub financial_accounts_from : ℕ → List Json → Validated (List FinancialAccount)
financial_accounts_from i [] = valid []
financial_accounts_from i (x ∷ xs) =
    financial_account i x >>= λ a. financial_accounts_from (i + 1) xs >>= λ as'. valid (a ∷ as')

abbrev pub some_accounts : List FinancialAccount → Validated (List FinancialAccount)
some_accounts [] = invalid "accounts array must not be empty"
some_accounts (a ∷ rest) =
    if ltb 20 (length (a ∷ rest))
    then invalid "accounts array exceeds maximum of 20"
    else valid (a ∷ rest)

unfoldable pub create_financial_accounts : Json → Validated CreateFinancialAccountsInput
create_financial_accounts raw = do
  d ← as_record raw
  household_id ← require_sf_id d "householdId"
  primary_contact_id ← optional_sf_id d "primaryContactId"
  raw_accounts ← require_array d "accounts" 100
  all_accounts ← financial_accounts_from 0 raw_accounts
  accounts ← some_accounts all_accounts
  valid record {
    household_id = household_id;
    primary_contact_id = primary_contact_id;
    accounts = accounts;
  }

abbrev pub id_at : ℕ → Json → Validated Text
id_at i (text s) =
    if is_valid_salesforce_id (str s)
    then valid s
    else invalid ("householdIds[" <> (show_ℕ i <> "] is not a valid Salesforce ID"))
id_at i _ = invalid ("householdIds[" <> (show_ℕ i <> "] is not a valid Salesforce ID"))

-- The loop that checks each id.
unfoldable pub ids_from : ℕ → List Json → Validated (List Text)
ids_from i [] = valid []
ids_from i (x ∷ xs) = id_at i x >>= λ t. ids_from (i + 1) xs >>= λ ts. valid (t ∷ ts)

abbrev pub or_missing : List Text → Option (List Text)
or_missing [] = none
or_missing (t ∷ ts) = some (t ∷ ts)

unfoldable pub query_financial_accounts : Json → Validated QueryFinancialAccountsInput
query_financial_accounts raw = do
  d ← as_record raw
  raw_ids ← optional_array d "householdIds" 100
  ids ← ids_from 0 raw_ids
  let household_ids = or_missing ids
  valid record { household_ids = household_ids }
