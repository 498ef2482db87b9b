-- ===== src/Custodian/Fidelity/Retirement.antt =====
-- The retirement accounts of `FIDELITY_RULES` of frontend/src/lib/custodian-rules.ts.
use min_demo.Base.{true, none, some, [], ◌∷◌}
use min_demo.Custodian.Rules.{
  AccountTypeRules, document, document_if, nigo, most_common, common, occasional,
}

abbrev pub traditional_ira : AccountTypeRules
traditional_ira = record {
  account_type = "Traditional IRA";
  custodian_id = "fidelity";
  display_name = "Fidelity Traditional IRA";
  signer_count = 1;
  requires_beneficiary = true;
  beneficiary_note =
      some
        "Fidelity requires beneficiary designations on file before funding any IRA. Missing beneficiary is the most common IRA NIGO, typically adding 5-7 business days.";
  required_documents =
      document "IRA Account Application" "Required for all IRA accounts" none
      ∷ document "Beneficiary Designation" "Required before IRA funding" none
      ∷ document "Fidelity IRA Customer Agreement" "Fidelity-specific IRA custodial agreement" none
      ∷ document "Form CRS" "SEC-required client relationship summary" none
      ∷ document "Advisory Addendum" "Required for advisory accounts" none
      ∷ [];
  conditional_documents =
      document_if "Rollover Recommendation"
        "DOL requires documentation that rollover is in client's best interest"
        (some "DOL PTE 2020-02") "Funding via rollover from employer plan" "funding_method"
        "Rollover"
      ∷ document_if "PTE 2020-02 Exemption"
          "Prohibited Transaction Exemption required for rollover recommendations"
          (some "DOL PTE 2020-02") "Funding via rollover from employer plan" "funding_method"
          "Rollover"
      ∷ document_if "Transfer of Assets (TOA) Form"
          "Required to transfer assets from another institution" none
          "Funding via transfer from another brokerage" "funding_method" "Transfer"
      ∷ document_if "Electronic Funds Transfer (EFT) Authorization"
          "Required for electronic funding setup" none "Funding via ACH/EFT" "funding_method" "ACH"
      ∷ [];
  income_eligibility = none;
  contribution_limit = some record { under50 = 7000; over50 = 8000; year = 2024 };
  nigo_risks =
      nigo "Missing beneficiary designation" most_common "5-7 business day delay"
        "Beneficiary form auto-included for all retirement accounts"
      ∷ nigo "Missing tax withholding election" common "3-5 business day delay"
          "Tax withholding section required in IRA application flow"
      ∷ nigo "Spousal consent missing for beneficiary in community property state" common
          "5-10 business day delay — spouse must sign waiver"
          "State residency check flags community property requirement during intake"
      ∷ nigo "Unsigned application" occasional "Application returned, 5-7 business day delay"
          "DocuSign enforces signature before submission"
      ∷ [];
  estimated_minutes = 15;
  notes = none;
}

abbrev pub roth_ira : AccountTypeRules
roth_ira = record {
  account_type = "Roth IRA";
  custodian_id = "fidelity";
  display_name = "Fidelity Roth IRA";
  signer_count = 1;
  requires_beneficiary = true;
  beneficiary_note =
      some
        "Fidelity requires beneficiary designations on file before funding any IRA. Missing beneficiary is the most common IRA NIGO, typically adding 5-7 business days.";
  required_documents =
      document "Roth IRA Account Application" "Required for Roth IRA accounts" none
      ∷ document "Beneficiary Designation" "Required before IRA funding" none
      ∷ document "Fidelity IRA Customer Agreement" "Fidelity-specific IRA custodial agreement" none
      ∷ document "Form CRS" "SEC-required client relationship summary" none
      ∷ document "Advisory Addendum" "Required for advisory accounts" none
      ∷ [];
  conditional_documents =
      document_if "Rollover Recommendation"
        "DOL requires documentation that rollover is in client's best interest"
        (some "DOL PTE 2020-02") "Funding via rollover from employer plan" "funding_method"
        "Rollover"
      ∷ document_if "PTE 2020-02 Exemption"
          "Prohibited Transaction Exemption required for rollover recommendations"
          (some "DOL PTE 2020-02") "Funding via rollover from employer plan" "funding_method"
          "Rollover"
      ∷ document_if "Transfer of Assets (TOA) Form"
          "Required to transfer assets from another institution" none
          "Funding via transfer from another brokerage" "funding_method" "Transfer"
      ∷ document_if "Electronic Funds Transfer (EFT) Authorization"
          "Required for electronic funding setup" none "Funding via ACH/EFT" "funding_method" "ACH"
      ∷ [];
  income_eligibility = some record {
    max_magi_single = 161000;
    max_magi_joint = 240000;
    year = 2024;
    phase_out_start_single = 146000;
    phase_out_start_joint = 230000;
    alternatives = "Traditional IRA" ∷ "Backdoor Roth conversion" ∷ [];
    alternative_note =
        "Two options: convert this to a Traditional IRA (no income limit), or set up a backdoor Roth conversion (contribute to Traditional, then convert). Which would you prefer?";
  };
  contribution_limit = some record { under50 = 7000; over50 = 8000; year = 2024 };
  nigo_risks =
      nigo "Missing beneficiary designation" most_common "5-7 business day delay"
        "Beneficiary form auto-included for all retirement accounts"
      ∷ nigo "Income eligibility not verified" common
          "Excess contribution penalty (6% per year) if over limit"
          "Income verification step required before Roth IRA application"
      ∷ nigo "Missing tax withholding election" common "3-5 business day delay"
          "Tax withholding section required in IRA application flow"
      ∷ nigo "Unsigned application" occasional "Application returned, 5-7 business day delay"
          "DocuSign enforces signature before submission"
      ∷ [];
  estimated_minutes = 15;
  notes =
      some
        "No RMDs during owner's lifetime. Tax-free qualified distributions. Fidelity NetBenefits integration available for employer plan rollovers.";
}

abbrev pub rollover_ira : AccountTypeRules
rollover_ira = record {
  account_type = "Rollover IRA";
  custodian_id = "fidelity";
  display_name = "Fidelity Rollover IRA";
  signer_count = 1;
  requires_beneficiary = true;
  beneficiary_note =
      some
        "Fidelity requires beneficiary designations on file before funding any IRA. Missing beneficiary is the most common IRA NIGO, typically adding 5-7 business days.";
  required_documents =
      document "IRA Account Application" "Required for all IRA accounts" none
      ∷ document "Beneficiary Designation" "Required before IRA funding" none
      ∷ document "Rollover Recommendation"
          "DOL requires documentation that rollover is in client's best interest"
          (some "DOL PTE 2020-02")
      ∷ document "PTE 2020-02 Exemption"
          "Prohibited Transaction Exemption required for rollover recommendations"
          (some "DOL PTE 2020-02")
      ∷ document "Fidelity IRA Customer Agreement" "Fidelity-specific IRA custodial agreement" none
      ∷ document "Form CRS" "SEC-required client relationship summary" none
      ∷ document "Advisory Addendum" "Required for advisory accounts" none
      ∷ [];
  conditional_documents =
      document_if "Transfer of Assets (TOA) Form"
        "Required to transfer assets from employer plan or another brokerage" none
        "Rollover from employer plan or another brokerage" "funding_method" "Transfer"
      ∷ [];
  income_eligibility = none;
  contribution_limit = some record { under50 = 7000; over50 = 8000; year = 2024 };
  nigo_risks =
      nigo "Missing rollover recommendation" most_common "7-10 business day delay — DOL requires it"
        "Rollover Recommendation auto-included for all Rollover IRA accounts"
      ∷ nigo "Missing beneficiary designation" common "5-7 business day delay"
          "Beneficiary form auto-included for all retirement accounts"
      ∷ nigo "60-day rollover window expired" occasional "Requires IRS waiver — significant delay"
          "Rollover timeline validation during intake warns if approaching 60-day limit"
      ∷ nigo "Fidelity NetBenefits plan ID missing for employer plan rollover" occasional
          "3-5 business day delay while plan is located"
          "Plan ID lookup prompted during rollover intake"
      ∷ [];
  estimated_minutes = 20;
  notes =
      some
        "DOL PTE 2020-02 requires a written rollover recommendation documenting why the rollover is in the client's best interest. Fidelity NetBenefits integration can expedite employer plan rollovers.";
}

abbrev pub sep_ira : AccountTypeRules
sep_ira = record {
  account_type = "SEP IRA";
  custodian_id = "fidelity";
  display_name = "Fidelity SEP IRA";
  signer_count = 1;
  requires_beneficiary = true;
  beneficiary_note =
      some
        "Fidelity requires beneficiary designations on file before funding any IRA. Missing beneficiary is the most common IRA NIGO, typically adding 5-7 business days.";
  required_documents =
      document "SEP IRA Account Application" "Required for SEP IRA accounts" none
      ∷ document "SEP Plan Agreement (IRS Form 5305-SEP)" "IRS-required plan document for SEP IRAs"
          none
      ∷ document "Beneficiary Designation" "Required before IRA funding" none
      ∷ document "Fidelity IRA Customer Agreement" "Fidelity-specific IRA custodial agreement" none
      ∷ document "Form CRS" "SEC-required client relationship summary" none
      ∷ document "Advisory Addendum" "Required for advisory accounts" none
      ∷ [];
  conditional_documents = [];
  income_eligibility = none;
  contribution_limit = some record { under50 = 69000; over50 = 69000; year = 2024 };
  nigo_risks =
      nigo "Missing SEP plan agreement" most_common "7-10 business day delay"
        "SEP Plan Agreement (5305-SEP) auto-included in document packet"
      ∷ nigo "Missing beneficiary designation" common "5-7 business day delay"
          "Beneficiary form auto-included for all retirement accounts"
      ∷ nigo "Contribution exceeds 25% of compensation" occasional "Excess contribution penalty"
          "Compensation-based contribution calculator shown during funding step"
      ∷ [];
  estimated_minutes = 20;
  notes = some "Employer contributions only. Employee salary deferrals not permitted under SEP.";
}
