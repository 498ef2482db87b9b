-- ===== src/SfInput/ItemContracts.antt =====
-- What the validators of frontend/src/lib/sf-validation.ts promise of the items of lists.
use min_demo.SfInput.Json.{Json}
use min_demo.SfInput.Inputs.{
  AccountIntent, MemberIntent, FundingDetail, Designation, EnvelopeConfig, CheckInput,
  PaperEnvelope, SignEnvelope,
}
use min_demo.SfInput.Items.{
  account_intent, member_intent, funding_detail, designation, envelope_config, check_input,
  paper_envelope, sign_envelope,
}
use min_demo.SfInput.Contracts.{Ensures, ensured, after, IsText, with_text}
use min_demo.SfInput.ListContracts.{IsTexts, with_texts}

ruleset item_rules = (with_text, after, ensured)

pub record IsAccountIntent (x : AccountIntent) : Type 0 where
  pub acct_type : IsText 500 x.acct_type
  pub owner : IsText 500 x.owner

pub account_intent-Ensures : (j : Json) → Ensures IsAccountIntent (account_intent j)
unfolding account_intent
account_intent-Ensures j = search item_rules depth 20

pub record IsMemberIntent (x : MemberIntent) : Type 0 where
  pub first_name : IsText 500 x.first_name
  pub last_name : IsText 500 x.last_name
  pub email : IsText 500 x.email
  pub phone : IsText 500 x.phone

pub member_intent-Ensures : (j : Json) → Ensures IsMemberIntent (member_intent j)
unfolding member_intent
member_intent-Ensures j = search item_rules depth 20

pub record IsFundingDetail (x : FundingDetail) : Type 0 where
  pub account : IsText 500 x.account
  pub detail : IsText 500 x.detail

pub funding_detail-Ensures : (j : Json) → Ensures IsFundingDetail (funding_detail j)
unfolding funding_detail
funding_detail-Ensures j = search item_rules depth 20

pub record IsDesignation (x : Designation) : Type 0 where
  pub account : IsText 500 x.account
  pub beneficiary : IsText 500 x.beneficiary

pub designation-Ensures : (j : Json) → Ensures IsDesignation (designation j)
unfolding designation
designation-Ensures j = search item_rules depth 20

pub record IsEnvelopeConfig (x : EnvelopeConfig) : Type 0 where
  pub envelope : IsText 500 x.envelope
  pub recipients : IsText 500 x.recipients

pub envelope_config-Ensures : (j : Json) → Ensures IsEnvelopeConfig (envelope_config j)
unfolding envelope_config
envelope_config-Ensures j = search item_rules depth 20

pub record IsCheckInput (x : CheckInput) : Type 0 where
  pub label : IsText 500 x.label
  pub status : IsText 500 x.status
  pub detail : IsText 1000 x.detail

pub check_input-Ensures : (j : Json) → Ensures IsCheckInput (check_input j)
unfolding check_input
check_input-Ensures j = search item_rules depth 20

pub record IsPaperEnvelope (x : PaperEnvelope) : Type 0 where
  pub name : IsText 500 x.name
  pub documents : IsTexts 100 x.documents

pub paper_envelope-Ensures : (j : Json) → Ensures IsPaperEnvelope (paper_envelope j)
unfolding paper_envelope
paper_envelope-Ensures j = after _ _ (λ d.
    with_texts d "documents" "Each document must be a string" 100 _
      (λ xs many. search item_rules depth 20))

pub record IsSignEnvelope (x : SignEnvelope) : Type 0 where
  pub name : IsText 500 x.name
  pub email_subject : IsText 500 x.email_subject
  pub signers : IsTexts 100 x.signers

pub sign_envelope-Ensures : (j : Json) → Ensures IsSignEnvelope (sign_envelope j)
unfolding sign_envelope
sign_envelope-Ensures j = after _ _ (λ d.
    with_texts d "signers" "Each signer must be a string" 100 _
      (λ xs many. search item_rules depth 20))
