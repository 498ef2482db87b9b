-- ===== src/SfInput/Records.antt =====
-- The validators of the actions that write, frontend/src/lib/sf-validation.ts.
use min_demo.SfInput.Json.{Json}
use min_demo.SfInput.Checks.{
  Validated, valid, ◌>>=◌, require_string, optional_string, require_sf_id, optional_sf_id,
  require_array, optional_array, require_boolean, optional_number, as_record, is_true, map_valid,
  as_text,
}
use min_demo.SfInput.Inputs.{
  SearchContactsInput, ConfirmIntentInput, RecordFundingInput, RecordMoneyLinkInput,
  RecordBeneficiariesInput, RecordCompletenessInput, RecordPaperworkInput,
  RecordDocusignConfigInput, SendDocusignInput, RecordComplianceReviewInput, RecordMeetingNoteInput,
  CompleteTaskInput, CreateTaskInput,
}
use min_demo.SfInput.Items.{
  account_intent, member_intent, funding_detail, designation, envelope_config, check_input,
  paper_envelope, sign_envelope,
}

unfoldable pub search_contacts : Json → Validated SearchContactsInput
search_contacts raw = do
  d ← as_record raw
  query ← require_string d "query" 100
  valid record { query = query }

unfoldable pub confirm_intent : Json → Validated ConfirmIntentInput
confirm_intent raw = do
  d ← as_record raw
  accounts_raw ← require_array d "accounts" 20
  accounts ← map_valid account_intent accounts_raw
  members_raw ← require_array d "members" 50
  members ← map_valid member_intent members_raw
  family_name ← require_string d "familyName" 500
  let force = is_true (d "force")
  assigned_advisor ← optional_string d "assignedAdvisor" 500
  valid record {
    family_name = family_name;
    force = force;
    assigned_advisor = assigned_advisor;
    accounts = accounts;
    members = members;
  }

unfoldable pub record_funding : Json → Validated RecordFundingInput
record_funding raw = do
  d ← as_record raw
  funding_details_raw ← require_array d "fundingDetails" 100
  funding_details ← map_valid funding_detail funding_details_raw
  household_id ← require_sf_id d "householdId"
  family_name ← require_string d "familyName" 500
  let pte_required = is_true (d "pteRequired")
  valid record {
    household_id = household_id;
    family_name = family_name;
    funding_details = funding_details;
    pte_required = pte_required;
  }

unfoldable pub record_money_link : Json → Validated RecordMoneyLinkInput
record_money_link raw = do
  d ← as_record raw
  household_id ← require_sf_id d "householdId"
  bank_name ← require_string d "bankName" 500
  last_four ← require_string d "lastFour" 4
  routing_last_four ← require_string d "routingLastFour" 4
  valid record {
    household_id = household_id;
    bank_name = bank_name;
    last_four = last_four;
    routing_last_four = routing_last_four;
  }

unfoldable pub record_beneficiaries : Json → Validated RecordBeneficiariesInput
record_beneficiaries raw = do
  d ← as_record raw
  designations_raw ← require_array d "designations" 100
  designations ← map_valid designation designations_raw
  household_id ← require_sf_id d "householdId"
  family_name ← require_string d "familyName" 500
  valid
      record { household_id = household_id; family_name = family_name; designations = designations }

unfoldable pub record_completeness : Json → Validated RecordCompletenessInput
record_completeness raw = do
  d ← as_record raw
  checks_raw ← require_array d "checks" 100
  checks ← map_valid (as_text "Each check must be a string") checks_raw
  household_id ← require_sf_id d "householdId"
  family_name ← require_string d "familyName" 500
  valid record { household_id = household_id; family_name = family_name; checks = checks }

unfoldable pub record_paperwork : Json → Validated RecordPaperworkInput
record_paperwork raw = do
  d ← as_record raw
  envelopes_raw ← require_array d "envelopes" 25
  envelopes ← map_valid paper_envelope envelopes_raw
  household_id ← require_sf_id d "householdId"
  valid record { household_id = household_id; envelopes = envelopes }

unfoldable pub record_docusign_config : Json → Validated RecordDocusignConfigInput
record_docusign_config raw = do
  d ← as_record raw
  config_raw ← require_array d "config" 100
  config ← map_valid envelope_config config_raw
  household_id ← require_sf_id d "householdId"
  family_name ← require_string d "familyName" 500
  envelope_count ← optional_number d "envelopeCount" 0
  valid record {
    household_id = household_id;
    family_name = family_name;
    envelope_count = envelope_count;
    config = config;
  }

unfoldable pub send_docusign : Json → Validated SendDocusignInput
send_docusign raw = do
  d ← as_record raw
  envelopes_raw ← require_array d "envelopes" 25
  envelopes ← map_valid sign_envelope envelopes_raw
  household_id ← require_sf_id d "householdId"
  primary_contact_id ← optional_sf_id d "primaryContactId"
  valid record {
    household_id = household_id;
    primary_contact_id = primary_contact_id;
    envelopes = envelopes;
  }

unfoldable pub record_compliance_review : Json → Validated RecordComplianceReviewInput
record_compliance_review raw = do
  d ← as_record raw
  checks_raw ← require_array d "checks" 100
  checks ← map_valid check_input checks_raw
  household_id ← require_sf_id d "householdId"
  family_name ← require_string d "familyName" 500
  passed ← require_boolean d "passed"
  fail_count ← optional_number d "failCount" 0
  reviewer_name ← optional_string d "reviewerName" 500
  next_review_date ← optional_string d "nextReviewDate" 500
  valid record {
    household_id = household_id;
    family_name = family_name;
    passed = passed;
    fail_count = fail_count;
    checks = checks;
    reviewer_name = reviewer_name;
    next_review_date = next_review_date;
  }

unfoldable pub record_meeting_note : Json → Validated RecordMeetingNoteInput
record_meeting_note raw = do
  d ← as_record raw
  follow_ups_raw ← optional_array d "followUps" 50
  follow_ups ← map_valid (as_text "Each follow-up must be a string") follow_ups_raw
  household_id ← require_sf_id d "householdId"
  family_name ← require_string d "familyName" 500
  contact_id ← optional_sf_id d "contactId"
  meeting_type ← optional_string d "meetingType" 500
  meeting_date ← optional_string d "meetingDate" 500
  attendees ← optional_string d "attendees" 500
  duration ← optional_string d "duration" 500
  notes ← require_string d "notes" 10000
  follow_up_days ← optional_number d "followUpDays" 7
  valid record {
    household_id = household_id;
    family_name = family_name;
    contact_id = contact_id;
    meeting_type = meeting_type;
    meeting_date = meeting_date;
    attendees = attendees;
    duration = duration;
    notes = notes;
    follow_ups = follow_ups;
    follow_up_days = follow_up_days;
  }

unfoldable pub complete_task : Json → Validated CompleteTaskInput
complete_task raw = do
  d ← as_record raw
  task_id ← require_sf_id d "taskId"
  valid record { task_id = task_id }

unfoldable pub create_task : Json → Validated CreateTaskInput
create_task raw = do
  d ← as_record raw
  household_id ← require_sf_id d "householdId"
  subject ← require_string d "subject" 500
  status ← optional_string d "status" 500
  priority ← optional_string d "priority" 500
  due_date ← optional_string d "dueDate" 500
  description ← optional_string d "description" 5000
  valid record {
    household_id = household_id;
    subject = subject;
    status = status;
    priority = priority;
    due_date = due_date;
    description = description;
  }
