-- ===== src/SfInput/Items.antt =====
-- The items of the lists that the validators of frontend/src/lib/sf-validation.ts read. Fields are
-- read in the order in which the source's literals read them, which decides the message.
use min_demo.SfInput.Json.{Json}
use min_demo.SfInput.Checks.{
  Validated, valid, ◌>>=◌, require_string, require_array, as_record, map_valid, as_text,
}
use min_demo.SfInput.Inputs.{
  AccountIntent, MemberIntent, FundingDetail, Designation, PaperEnvelope, EnvelopeConfig,
  SignEnvelope, CheckInput,
}

unfoldable pub account_intent : Json → Validated AccountIntent
account_intent raw = do
  d ← as_record raw
  acct_type ← require_string d "type" 500
  owner ← require_string d "owner" 500
  valid record { acct_type = acct_type; owner = owner }

unfoldable pub member_intent : Json → Validated MemberIntent
member_intent raw = do
  d ← as_record raw
  first_name ← require_string d "firstName" 500
  last_name ← require_string d "lastName" 500
  email ← require_string d "email" 500
  phone ← require_string d "phone" 500
  valid record { first_name = first_name; last_name = last_name; email = email; phone = phone }

unfoldable pub funding_detail : Json → Validated FundingDetail
funding_detail raw = do
  d ← as_record raw
  account ← require_string d "account" 500
  detail ← require_string d "detail" 500
  valid record { account = account; detail = detail }

unfoldable pub designation : Json → Validated Designation
designation raw = do
  d ← as_record raw
  account ← require_string d "account" 500
  beneficiary ← require_string d "beneficiary" 500
  valid record { account = account; beneficiary = beneficiary }

unfoldable pub envelope_config : Json → Validated EnvelopeConfig
envelope_config raw = do
  d ← as_record raw
  envelope ← require_string d "envelope" 500
  recipients ← require_string d "recipients" 500
  valid record { envelope = envelope; recipients = recipients }

unfoldable pub check_input : Json → Validated CheckInput
check_input raw = do
  d ← as_record raw
  label ← require_string d "label" 500
  status ← require_string d "status" 500
  detail ← require_string d "detail" 1000
  valid record { label = label; status = status; detail = detail }

unfoldable pub paper_envelope : Json → Validated PaperEnvelope
paper_envelope raw = do
  d ← as_record raw
  documents_raw ← require_array d "documents" 100
  documents ← map_valid (as_text "Each document must be a string") documents_raw
  name ← require_string d "name" 500
  valid record { name = name; documents = documents }

unfoldable pub sign_envelope : Json → Validated SignEnvelope
sign_envelope raw = do
  d ← as_record raw
  signers_raw ← require_array d "signers" 100
  signers ← map_valid (as_text "Each signer must be a string") signers_raw
  name ← require_string d "name" 500
  email_subject ← require_string d "emailSubject" 500
  valid record { name = name; signers = signers; email_subject = email_subject }
