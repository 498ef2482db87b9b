-- ===== src/Custodian/Lookup.antt =====
-- The rules registry and its lookups, frontend/src/lib/custodian-rules.ts. A custodian and an
-- account type are the source's strings; a context is a function of the field's name. The
-- locale-independent `toLowerCase` of the language is the parameter `lower`.
pub mod Registry
mod Tests
pub mod Documents
pub mod Income
pub mod Risks
use min_demo.Base.{
  ℕ, String, Bool, true, false, not, ◌&&◌, Option, none, some, List, [], ◌∷◌, ◌++◌, map, str_eq,
  leb, ltb, if◌then◌else◌, filter, sort_by, includes, units, get_or_else,
}
use min_demo.Custodian.Rules.{
  AccountTypeRules, DocumentRule, ConditionalDocumentRule, IncomeEligibility, NigoRisk, Frequency,
  most_common, common, occasional,
}
use min_demo.Custodian.Schwab.{schwab_rules}
use min_demo.Custodian.Fidelity.{fidelity_rules}
use min_demo.Custodian.Pershing.{pershing_rules}

-- `RULES_REGISTRY[custodianId]`.
unfoldable pub rules_registry : String → Option (List AccountTypeRules)
rules_registry id =
    if str_eq id "schwab"
    then some schwab_rules
    else if str_eq id "fidelity"
    then some fidelity_rules
    else if str_eq id "pershing"
    then some pershing_rules
    else none

-- `rules.find((r) => r.accountType === accountType) ?? null`.
unfoldable pub find_rules : List AccountTypeRules → String → Option AccountTypeRules
find_rules [] t = none
find_rules (r ∷ rs) t = if str_eq r.account_type t then some r else find_rules rs t

unfoldable pub get_rules_for_account_type : String → String → Option AccountTypeRules
get_rules_for_account_type id t = elim (rules_registry id) [
  | none ↦ none
  | some rules ↦ find_rules rules t
]

unfoldable pub get_account_types_list : String → List AccountTypeRules
get_account_types_list id = get_or_else (rules_registry id) []

unfoldable pub get_all_account_type_names : String → List String
get_all_account_type_names id = map (λ r. r.account_type) (get_or_else (rules_registry id) [])

-- `context[cond.triggerField] === cond.triggerValue`.
abbrev pub triggered : (String → Option String) → ConditionalDocumentRule → Bool
triggered context c = elim (context c.trigger_field) [
  | none ↦ false
  | some v ↦ str_eq v c.trigger_value
]

abbrev pub as_document : ConditionalDocumentRule → DocumentRule
as_document c = record { name = c.name; reason = c.reason; regulation = c.regulation }

-- The loop over the conditional documents; `docs` is what has been pushed.
unfoldable pub push_conditional :
    (String → Option String) → List ConditionalDocumentRule → List DocumentRule → List DocumentRule
push_conditional context [] docs = docs
push_conditional context (c ∷ cs) docs =
    push_conditional context cs (if triggered context c then docs ++ as_document c ∷ [] else docs)

unfoldable pub get_required_documents :
    String → String → (String → Option String) → List DocumentRule
get_required_documents id t context = elim (get_rules_for_account_type id t) [
  | none ↦ []
  | some r ↦ push_conditional context r.conditional_documents r.required_documents
]

pub data FilingStatus : Type 0 where
  single joint : FilingStatus

pub record Eligibility : Type 0 where
  pub eligible : Bool
  pub over_limit : Bool
  pub in_phase_out : Bool
  pub alternatives : List String
  pub note : String

abbrev pub max_magi : IncomeEligibility → FilingStatus → ℕ
max_magi ie single = ie.max_magi_single
max_magi ie joint = ie.max_magi_joint

abbrev pub phase_out_start : IncomeEligibility → FilingStatus → ℕ
phase_out_start ie single = ie.phase_out_start_single
phase_out_start ie joint = ie.phase_out_start_joint

unfoldable pub eligibility : IncomeEligibility → ℕ → FilingStatus → Eligibility
eligibility ie income filing =
    let over_limit = ltb (max_magi ie filing) income in
    record {
      eligible = not over_limit;
      over_limit = over_limit;
      in_phase_out = not over_limit && leb (phase_out_start ie filing) income;
      alternatives = ie.alternatives;
      note = ie.alternative_note;
    }

unfoldable pub check_income_eligibility : String → String → ℕ → FilingStatus → Option Eligibility
check_income_eligibility id t income filing = elim (get_rules_for_account_type id t) [
  | none ↦ none
  | some r ↦ elim (r.income_eligibility) [
    | none ↦ none
    | some ie ↦ some (eligibility ie income filing)
  ]
]

abbrev pub frequency_order : Frequency → ℕ
frequency_order most_common = 0
frequency_order common = 1
frequency_order occasional = 2

abbrev pub risks_of : String → String → List NigoRisk
risks_of id t = elim (get_rules_for_account_type id t) [ none ↦ [] | some r ↦ r.nigo_risks ]

unfoldable pub get_nigo_risks : String → String → List NigoRisk
get_nigo_risks id t = elim (get_rules_for_account_type id t) [
  | none ↦ []
  | some r ↦ sort_by (λ (k : NigoRisk). frequency_order k.frequency) r.nigo_risks
]

pub record CompletedFields : Type 0 where
  pub has_beneficiary : Bool
  pub signer_count : ℕ
  pub income_verified : Bool
  pub has_rollover_rec : Bool

module _ (lower : String → String) (done : CompletedFields) where
  -- The chain of tests; each of its branches pushes the risk.
  unfoldable pub is_prevented : NigoRisk → Bool
  is_prevented k =
      let says = λ (w : String). includes (units w) (units (lower k.risk)) in
      if says "beneficiary" && done.has_beneficiary
      then true
      else if says "one owner signed" && leb 2 done.signer_count
      then true
      else if says "income eligibility" && done.income_verified
      then true
      else says "rollover recommendation" && done.has_rollover_rec

  unfoldable pub get_prevented_nigo_risks : String → String → List NigoRisk
  get_prevented_nigo_risks id t = elim (get_rules_for_account_type id t) [
    | none ↦ []
    | some r ↦ filter is_prevented r.nigo_risks
  ]
