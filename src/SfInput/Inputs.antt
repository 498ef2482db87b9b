-- ===== src/SfInput/Inputs.antt =====
-- The validated inputs of frontend/src/lib/sf-validation.ts.
use min_demo.Base.{ℕ, Bool, Option, List, Text}
use min_demo.SfInput.Json.{Number}

pub record AccountIntent : Type 0 where
  pub acct_type : Text
  pub owner : Text

pub record MemberIntent : Type 0 where
  pub first_name : Text
  pub last_name : Text
  pub email : Text
  pub phone : Text

pub record FundingDetail : Type 0 where
  pub account : Text
  pub detail : Text

pub record Designation : Type 0 where
  pub account : Text
  pub beneficiary : Text

pub record PaperEnvelope : Type 0 where
  pub name : Text
  pub documents : List Text

pub record EnvelopeConfig : Type 0 where
  pub envelope : Text
  pub recipients : Text

pub record SignEnvelope : Type 0 where
  pub name : Text
  pub signers : List Text
  pub email_subject : Text

pub record CheckInput : Type 0 where
  pub label : Text
  pub status : Text
  pub detail : Text

pub record FinancialAccount : Type 0 where
  pub acct_type : Text
  pub owner : Text
  pub amount : Option Text

pub record SearchContactsInput : Type 0 where
  pub query : Text

pub record ConfirmIntentInput : Type 0 where
  pub family_name : Text
  pub force : Bool
  pub assigned_advisor : Option Text
  pub accounts : List AccountIntent
  pub members : List MemberIntent

pub record RecordFundingInput : Type 0 where
  pub household_id : Text
  pub family_name : Text
  pub funding_details : List FundingDetail
  pub pte_required : Bool

pub record RecordMoneyLinkInput : Type 0 where
  pub household_id : Text
  pub bank_name : Text
  pub last_four : Text
  pub routing_last_four : Text

pub record RecordBeneficiariesInput : Type 0 where
  pub household_id : Text
  pub family_name : Text
  pub designations : List Designation

pub record RecordCompletenessInput : Type 0 where
  pub household_id : Text
  pub family_name : Text
  pub checks : List Text

pub record RecordPaperworkInput : Type 0 where
  pub household_id : Text
  pub envelopes : List PaperEnvelope

pub record RecordDocusignConfigInput : Type 0 where
  pub household_id : Text
  pub family_name : Text
  pub envelope_count : Number
  pub config : List EnvelopeConfig

pub record SendDocusignInput : Type 0 where
  pub household_id : Text
  pub primary_contact_id : Option Text
  pub envelopes : List SignEnvelope

pub record SearchHouseholdsInput : Type 0 where
  pub query : Text
  pub limit : ℕ
  pub offset : ℕ

pub record GetHouseholdDetailInput : Type 0 where
  pub household_id : Text

pub record RecordComplianceReviewInput : Type 0 where
  pub household_id : Text
  pub family_name : Text
  pub passed : Bool
  pub fail_count : Number
  pub checks : List CheckInput
  pub reviewer_name : Option Text
  pub next_review_date : Option Text

pub record QueryTasksInput : Type 0 where
  pub limit : ℕ
  pub offset : ℕ

pub record RecordMeetingNoteInput : Type 0 where
  pub household_id : Text
  pub family_name : Text
  pub contact_id : Option Text
  pub meeting_type : Option Text
  pub meeting_date : Option Text
  pub attendees : Option Text
  pub duration : Option Text
  pub notes : Text
  pub follow_ups : List Text
  pub follow_up_days : Number

pub record CompleteTaskInput : Type 0 where
  pub task_id : Text

pub record CreateTaskInput : Type 0 where
  pub household_id : Text
  pub subject : Text
  pub status : Option Text
  pub priority : Option Text
  pub due_date : Option Text
  pub description : Option Text

pub record CreateFinancialAccountsInput : Type 0 where
  pub household_id : Text
  pub primary_contact_id : Option Text
  pub accounts : List FinancialAccount

pub record QueryFinancialAccountsInput : Type 0 where
  pub household_ids : Option (List Text)
