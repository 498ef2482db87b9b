-- ===== src/Compliance.antt =====
-- The compliance engine of frontend/src/lib/compliance-engine.ts: its types, and the search for
-- keywords that its checks rest on. The checks are in the children.
pub mod Templates
pub mod Identity
pub mod Documents
pub mod Builtin
pub mod ByType
pub mod Run
pub mod Search
pub mod Report
pub mod Overrides
mod Tests
use min_demo.Base.{
  ℕ, ◌-◌, ◌/◌, String, Bool, true, false, ◌&&◌, ◌||◌, Option, none, some, List, [], ◌∷◌, ◌++◌, map,
  Text, units, includes, join_space, any, filter, ltb, str_eq, if◌then◌else◌, get_or_else,
}

pub data AccountType : Type 0 where
  individual trust entity retirement joint unknown : AccountType

pub data Category : Type 0 where
  identity suitability documents account regulatory firm : Category

pub data Status : Type 0 where
  pass warn fail : Status

pub data AssignTo : Type 0 where
  advisor ops client custodian : AssignTo

pub record RemediationStep : Type 0 where
  pub order : ℕ
  pub action : String
  pub assign_to : AssignTo
  pub follow_up_days : ℕ
  pub form_url : Option String

pub record CheckResult : Type 0 where
  pub id : String
  pub category : Category
  pub label : String
  pub regulation : String
  pub status : Status
  pub detail : String
  pub evidence : Option (List String)
  pub why_it_matters : String
  pub remediation : Option (List RemediationStep)

pub record CustomCheck : Type 0 where
  pub id : String
  pub label : String
  pub keyword : String
  pub regulation : String
  pub why_it_matters : String
  pub fail_status : Status

pub record Contact : Type 0 where
  pub first_name : String
  pub last_name : String
  pub email : String
  pub phone : String

pub record Task : Type 0 where
  pub subject : String
  pub status : String
  pub description : String

-- A `Record<string, string[]>`; the first entry for a key counts.
abbrev pub KeywordMap : Type 0
KeywordMap = List (String × List String)

unfoldable pub lookup {ℓ} : {V : Type ℓ} → String → List (String × V) → Option V
lookup k [] = none
lookup k ((j, v) ∷ m) = if str_eq j k then some v else lookup k m

-- `map[checkId] || []`.
abbrev pub keywords : KeywordMap → String → List String
keywords m id = get_or_else (lookup id m) []

-- `{ ...DEFAULT_KEYWORD_MAP, ...(overrides ?? loadKeywordMap()) }`; `stored` is what
-- `loadKeywordMap` finds.
abbrev pub effective_keyword_map : KeywordMap → Option KeywordMap → KeywordMap → KeywordMap
effective_keyword_map defaults overrides stored = get_or_else overrides stored ++ defaults

-- `CUSTODIANS[ACTIVE_CUSTODIAN].shortName` of frontend/src/lib/custodian.ts.
pub data CustodianId : Type 0 where
  schwab fidelity pershing altus : CustodianId

abbrev pub short_name : CustodianId → String
short_name schwab = "Schwab"
short_name fidelity = "Fidelity"
short_name pershing = "Pershing"
short_name altus = "Altus"

-- What a scan of one household reads. Times are in milliseconds; `created_at` is `none` where the
-- date does not parse.
pub record Scan : Type 0 where
  pub created_at : Option ℕ
  pub now : ℕ
  pub contacts : List Contact
  pub tasks : List Task
  pub overrides : Option KeywordMap
  pub stored_keywords : KeywordMap
  pub account_type : Option AccountType
  pub custom_checks : List CustomCheck
  pub custodian_id : CustodianId

-- `lower` is `String.prototype.toLowerCase`, of which nothing is assumed.
module _ (lower : Text → Text) where
  -- `allTaskText`: the subjects, then the descriptions, joined by spaces.
  unfoldable pub all_task_text : List Task → Text
  all_task_text tasks =
      join_space
        (map (λ t. lower (units t.subject)) tasks ++ map (λ t. lower (units t.description)) tasks)

  unfoldable pub has_task : List Task → String → Bool
  has_task tasks keyword = includes (lower (units keyword)) (all_task_text tasks)

  unfoldable pub has_check : List Task → KeywordMap → String → Bool
  has_check tasks m id = any (has_task tasks) (keywords m id)

  unfoldable pub matched_keywords : List Task → KeywordMap → String → List String
  matched_keywords tasks m id = filter (has_task tasks) (keywords m id)
