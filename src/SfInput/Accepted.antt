-- ===== src/SfInput/Accepted.antt =====
-- The inputs of the actions that write, as the validators of frontend/src/lib/sf-validation.ts
-- accept them.
use min_demo.SfInput.Json.{Json}
use min_demo.SfInput.Inputs.{
  ConfirmIntentInput, RecordFundingInput, RecordMoneyLinkInput, RecordBeneficiariesInput,
  RecordCompletenessInput, RecordPaperworkInput, RecordDocusignConfigInput, SendDocusignInput,
  RecordComplianceReviewInput, RecordMeetingNoteInput, CompleteTaskInput, CreateTaskInput,
}
use min_demo.SfInput.Items.{
  account_intent, member_intent, funding_detail, designation, envelope_config, check_input,
  paper_envelope, sign_envelope,
}
use min_demo.SfInput.Records.{
  confirm_intent, record_funding, record_money_link, record_beneficiaries, record_completeness,
  record_paperwork, record_docusign_config, send_docusign, record_compliance_review,
  record_meeting_note, complete_task, create_task,
}
use min_demo.SfInput.Contracts.{
  Ensures, ensured, after, IsId, IsIdOrNone, IsText, with_id, with_id_or_none, with_text,
}
use min_demo.SfInput.ListContracts.{AllWithin, with_items, IsTexts, with_texts, with_optional_texts}
use min_demo.SfInput.ItemContracts.{
  IsAccountIntent, IsMemberIntent, IsFundingDetail, IsDesignation, IsEnvelopeConfig, IsCheckInput,
  IsPaperEnvelope, IsSignEnvelope, account_intent-Ensures, member_intent-Ensures,
  funding_detail-Ensures, designation-Ensures, envelope_config-Ensures, check_input-Ensures,
  paper_envelope-Ensures, sign_envelope-Ensures,
}

ruleset chain_rules = (with_id, with_id_or_none, with_text, after, ensured)

pub record IsConfirmIntentInput (x : ConfirmIntentInput) : Type 0 where
  pub family_name : IsText 500 x.family_name
  pub accounts : AllWithin 20 IsAccountIntent x.accounts
  pub members : AllWithin 50 IsMemberIntent x.members

confirm_intent-Ensures : (j : Json) → Ensures IsConfirmIntentInput (confirm_intent j)
unfolding confirm_intent
confirm_intent-Ensures j = after _ _ (λ d.
    with_items account_intent account_intent-Ensures d "accounts" 20 _ (λ xs p103.
      with_items member_intent member_intent-Ensures d "members" 50 _
        (λ xs p27. search chain_rules depth 30)))

pub record IsRecordFundingInput (x : RecordFundingInput) : Type 0 where
  pub household_id : IsId x.household_id
  pub family_name : IsText 500 x.family_name
  pub funding_details : AllWithin 100 IsFundingDetail x.funding_details

record_funding-Ensures : (j : Json) → Ensures IsRecordFundingInput (record_funding j)
unfolding record_funding
record_funding-Ensures j = after _ _ (λ d.
    with_items funding_detail funding_detail-Ensures d "fundingDetails" 100 _
      (λ xs p27. search chain_rules depth 30))

pub record IsRecordMoneyLinkInput (x : RecordMoneyLinkInput) : Type 0 where
  pub household_id : IsId x.household_id
  pub bank_name : IsText 500 x.bank_name
  pub last_four : IsText 4 x.last_four
  pub routing_last_four : IsText 4 x.routing_last_four

record_money_link-Ensures : (j : Json) → Ensures IsRecordMoneyLinkInput (record_money_link j)
unfolding record_money_link
record_money_link-Ensures j = search chain_rules depth 30

pub record IsRecordBeneficiariesInput (x : RecordBeneficiariesInput) : Type 0 where
  pub household_id : IsId x.household_id
  pub family_name : IsText 500 x.family_name
  pub designations : AllWithin 100 IsDesignation x.designations

record_beneficiaries-Ensures :
    (j : Json) → Ensures IsRecordBeneficiariesInput (record_beneficiaries j)
unfolding record_beneficiaries
record_beneficiaries-Ensures j = after _ _ (λ d.
    with_items designation designation-Ensures d "designations" 100 _
      (λ xs p27. search chain_rules depth 30))

pub record IsRecordCompletenessInput (x : RecordCompletenessInput) : Type 0 where
  pub household_id : IsId x.household_id
  pub family_name : IsText 500 x.family_name
  pub checks : IsTexts 100 x.checks

record_completeness-Ensures : (j : Json) → Ensures IsRecordCompletenessInput (record_completeness j)
unfolding record_completeness
record_completeness-Ensures j = after _ _ (λ d.
    with_texts d "checks" "Each check must be a string" 100 _
      (λ xs many. search chain_rules depth 30))

pub record IsRecordPaperworkInput (x : RecordPaperworkInput) : Type 0 where
  pub household_id : IsId x.household_id
  pub envelopes : AllWithin 25 IsPaperEnvelope x.envelopes

record_paperwork-Ensures : (j : Json) → Ensures IsRecordPaperworkInput (record_paperwork j)
unfolding record_paperwork
record_paperwork-Ensures j = after _ _ (λ d.
    with_items paper_envelope paper_envelope-Ensures d "envelopes" 25 _
      (λ xs p27. search chain_rules depth 30))

pub record IsRecordDocusignConfigInput (x : RecordDocusignConfigInput) : Type 0 where
  pub household_id : IsId x.household_id
  pub family_name : IsText 500 x.family_name
  pub config : AllWithin 100 IsEnvelopeConfig x.config

record_docusign_config-Ensures :
    (j : Json) → Ensures IsRecordDocusignConfigInput (record_docusign_config j)
unfolding record_docusign_config
record_docusign_config-Ensures j = after _ _ (λ d.
    with_items envelope_config envelope_config-Ensures d "config" 100 _
      (λ xs p27. search chain_rules depth 30))

pub record IsSendDocusignInput (x : SendDocusignInput) : Type 0 where
  pub household_id : IsId x.household_id
  pub primary_contact_id : IsIdOrNone x.primary_contact_id
  pub envelopes : AllWithin 25 IsSignEnvelope x.envelopes

send_docusign-Ensures : (j : Json) → Ensures IsSendDocusignInput (send_docusign j)
unfolding send_docusign
send_docusign-Ensures j = after _ _ (λ d.
    with_items sign_envelope sign_envelope-Ensures d "envelopes" 25 _
      (λ xs p27. search chain_rules depth 30))

pub record IsRecordComplianceReviewInput (x : RecordComplianceReviewInput) : Type 0 where
  pub household_id : IsId x.household_id
  pub family_name : IsText 500 x.family_name
  pub checks : AllWithin 100 IsCheckInput x.checks

record_compliance_review-Ensures :
    (j : Json) → Ensures IsRecordComplianceReviewInput (record_compliance_review j)
unfolding record_compliance_review
record_compliance_review-Ensures j = after _ _ (λ d.
    with_items check_input check_input-Ensures d "checks" 100 _
      (λ xs p27. search chain_rules depth 30))

pub record IsRecordMeetingNoteInput (x : RecordMeetingNoteInput) : Type 0 where
  pub household_id : IsId x.household_id
  pub family_name : IsText 500 x.family_name
  pub contact_id : IsIdOrNone x.contact_id
  pub notes : IsText 10000 x.notes
  pub follow_ups : IsTexts 50 x.follow_ups

record_meeting_note-Ensures : (j : Json) → Ensures IsRecordMeetingNoteInput (record_meeting_note j)
unfolding record_meeting_note
record_meeting_note-Ensures j = after _ _ (λ d.
    with_optional_texts d "followUps" "Each follow-up must be a string" 50 _
      (λ xs many. search chain_rules depth 30))

pub record IsCompleteTaskInput (x : CompleteTaskInput) : Type 0 where
  pub task_id : IsId x.task_id

complete_task-Ensures : (j : Json) → Ensures IsCompleteTaskInput (complete_task j)
unfolding complete_task
complete_task-Ensures j = search chain_rules depth 30

pub record IsCreateTaskInput (x : CreateTaskInput) : Type 0 where
  pub household_id : IsId x.household_id
  pub subject : IsText 500 x.subject

create_task-Ensures : (j : Json) → Ensures IsCreateTaskInput (create_task j)
unfolding create_task
create_task-Ensures j = search chain_rules depth 30

-- The contract of each action that writes, for one value that is sent to all of them.
pub record ChecksWrites (j : Json) : Type 0 where
  pub confirm_intent_ok : Ensures IsConfirmIntentInput (confirm_intent j)
  pub record_funding_ok : Ensures IsRecordFundingInput (record_funding j)
  pub record_money_link_ok : Ensures IsRecordMoneyLinkInput (record_money_link j)
  pub record_beneficiaries_ok : Ensures IsRecordBeneficiariesInput (record_beneficiaries j)
  pub record_completeness_ok : Ensures IsRecordCompletenessInput (record_completeness j)
  pub record_paperwork_ok : Ensures IsRecordPaperworkInput (record_paperwork j)
  pub record_docusign_config_ok : Ensures IsRecordDocusignConfigInput (record_docusign_config j)
  pub send_docusign_ok : Ensures IsSendDocusignInput (send_docusign j)
  pub record_compliance_review_ok :
      Ensures IsRecordComplianceReviewInput (record_compliance_review j)
  pub record_meeting_note_ok : Ensures IsRecordMeetingNoteInput (record_meeting_note j)
  pub complete_task_ok : Ensures IsCompleteTaskInput (complete_task j)
  pub create_task_ok : Ensures IsCreateTaskInput (create_task j)

-- Whatever value a request carries, an action that writes gets an input only if its ids are valid
-- Salesforce ids, its required texts are trimmed, not empty and within their limits, and its lists
-- are within theirs, with items whose required texts and lists are so too; otherwise the validator
-- refuses. The texts of a list of texts are as they came.
pub writes_checked : (j : Json) → ChecksWrites j
writes_checked j = record {
  confirm_intent_ok = confirm_intent-Ensures j;
  record_funding_ok = record_funding-Ensures j;
  record_money_link_ok = record_money_link-Ensures j;
  record_beneficiaries_ok = record_beneficiaries-Ensures j;
  record_completeness_ok = record_completeness-Ensures j;
  record_paperwork_ok = record_paperwork-Ensures j;
  record_docusign_config_ok = record_docusign_config-Ensures j;
  send_docusign_ok = send_docusign-Ensures j;
  record_compliance_review_ok = record_compliance_review-Ensures j;
  record_meeting_note_ok = record_meeting_note-Ensures j;
  complete_task_ok = complete_task-Ensures j;
  create_task_ok = create_task-Ensures j;
}
