-- ===== src/Types.antt =====
-- The shared types of frontend/src/lib/types.ts and the CRM record shapes of
-- frontend/src/lib/home-stats.ts. A field that may be missing is an `Option`.
use min_demo.Base.{ℕ, String, Option}

pub data Screen : Type 0 where
  home flow onboard compliance settings briefing meeting query dashboard : Screen
  family task_manager planning workflows money documents portal activity audit : Screen

pub record WorkflowContext : Type 0 where
  pub household_id : String
  pub family_name : String
  pub primary_contact_id : Option String

pub data UserRole : Type 0 where
  advisor operations principal : UserRole

pub data FlowStep : Type 0 where
  context client_type search_existing enter_client_p1 enter_client_p2 : FlowStep
  select_accounts_p1 select_accounts_p2 select_accounts_joint : FlowStep
  funding moneylink beneficiaries review generating complete : FlowStep

pub record ClientInfo : Type 0 where
  pub first_name : String
  pub last_name : String
  pub email : String
  pub phone : String
  pub street : String
  pub city : String
  pub us_state : String
  pub zip : String
  pub dob : String
  pub ssn : String
  pub citizenship : String
  pub id_type : String
  pub id_number : String
  pub id_state : String
  pub id_expiration : String
  pub marital_status : String
  pub employment_status : String
  pub employer : String
  pub annual_income : String
  pub net_worth : String
  pub liquid_net_worth : String
  pub investment_experience : String
  pub risk_tolerance : String
  pub investment_objective : String
  pub trusted_contact_name : String
  pub trusted_contact_last_name : String
  pub trusted_contact_phone : String
  pub trusted_contact_relationship : String

pub record AccountRequest : Type 0 where
  pub id : String
  pub owner : String
  pub acct_type : String
  pub purpose : Option String
  pub funding : Option String
  pub allocation : Option String
  pub amount : Option String
  pub funding_amount : Option String
  pub signers : ℕ

pub data BeneType : Type 0 where
  primary contingent : BeneType

pub record Beneficiary : Type 0 where
  pub account_id : String
  pub name : String
  pub relationship : String
  pub percentage : ℕ
  pub bene_type : BeneType

pub record SfEvidence : Type 0 where
  pub label : String
  pub url : Option String
  pub timestamp : Option String

pub record SearchResult : Type 0 where
  pub first_name : String
  pub last_name : String
  pub email : String
  pub phone : String
  pub household : String

pub record EnvStatus : Type 0 where
  pub envelope_id : String
  pub status : String
  pub name : Option String

abbrev pub empty_client : ClientInfo
empty_client = record {
  first_name = "";
  last_name = "";
  email = "";
  phone = "";
  street = "";
  city = "";
  us_state = "";
  zip = "";
  dob = "";
  ssn = "";
  citizenship = "US Citizen";
  id_type = "Driver's License";
  id_number = "";
  id_state = "";
  id_expiration = "";
  marital_status = "";
  employment_status = "";
  employer = "";
  annual_income = "";
  net_worth = "";
  liquid_net_worth = "";
  investment_experience = "";
  risk_tolerance = "";
  investment_objective = "";
  trusted_contact_name = "";
  trusted_contact_last_name = "";
  trusted_contact_phone = "";
  trusted_contact_relationship = "";
}
