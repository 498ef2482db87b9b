-- ===== src/Custodian/Rules.antt =====
-- The shapes of the account-opening rules of frontend/src/lib/custodian-rules.ts. The tables stand
-- in the modules of the three custodians.
use min_demo.Base.{ℕ, String, Bool, Option, List}

pub record DocumentRule : Type 0 where
  pub name : String
  pub reason : String
  pub regulation : Option String

pub record ConditionalDocumentRule : Type 0 where
  pub name : String
  pub reason : String
  pub regulation : Option String
  pub condition : String
  pub trigger_field : String
  pub trigger_value : String

pub record IncomeEligibility : Type 0 where
  pub max_magi_single : ℕ
  pub max_magi_joint : ℕ
  pub year : ℕ
  pub phase_out_start_single : ℕ
  pub phase_out_start_joint : ℕ
  pub alternatives : List String
  pub alternative_note : String

pub record ContributionLimit : Type 0 where
  pub under50 : ℕ
  pub over50 : ℕ
  pub year : ℕ

pub data Frequency : Type 0 where
  most_common common occasional : Frequency

pub record NigoRisk : Type 0 where
  pub risk : String
  pub frequency : Frequency
  pub impact : String
  pub prevention : String

pub record AccountTypeRules : Type 0 where
  pub account_type : String
  pub custodian_id : String
  pub display_name : String
  pub signer_count : ℕ
  pub requires_beneficiary : Bool
  pub beneficiary_note : Option String
  pub required_documents : List DocumentRule
  pub conditional_documents : List ConditionalDocumentRule
  pub income_eligibility : Option IncomeEligibility
  pub contribution_limit : Option ContributionLimit
  pub nigo_risks : List NigoRisk
  pub estimated_minutes : ℕ
  pub notes : Option String

-- Rows of the tables, in the order of their fields.
abbrev pub document : String → String → Option String → DocumentRule
document name reason regulation = record { name = name; reason = reason; regulation = regulation }

abbrev pub document_if :
    String → String → Option String → String → String → String → ConditionalDocumentRule
document_if name reason regulation condition field value = record {
  name = name;
  reason = reason;
  regulation = regulation;
  condition = condition;
  trigger_field = field;
  trigger_value = value;
}

abbrev pub nigo : String → Frequency → String → String → NigoRisk
nigo risk frequency impact prevention = record {
  risk = risk;
  frequency = frequency;
  impact = impact;
  prevention = prevention;
}
