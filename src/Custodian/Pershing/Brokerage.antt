-- ===== src/Custodian/Pershing/Brokerage.antt =====
-- The brokerage and trust accounts of `PERSHING_RULES` of frontend/src/lib/custodian-rules.ts.
use min_demo.Base.{true, false, none, some, [], ◌∷◌}
use min_demo.Custodian.Rules.{
  AccountTypeRules, document, document_if, nigo, most_common, common, occasional,
}

abbrev pub individual_brokerage : AccountTypeRules
individual_brokerage = record {
  account_type = "Individual Brokerage";
  custodian_id = "pershing";
  display_name = "Pershing Individual Brokerage";
  signer_count = 1;
  requires_beneficiary = false;
  beneficiary_note = none;
  required_documents =
      document "New Account Application" "Required for all new Pershing accounts" none
      ∷ document "Form CRS" "SEC-required client relationship summary" none
      ∷ document "Advisory Addendum" "Required for advisory accounts" none
      ∷ [];
  conditional_documents =
      document_if "ACH Authorization" "Required for electronic funding setup" none "Funding via ACH"
        "funding_method" "ACH"
      ∷ document_if "Account Transfer Form (ACAT)"
          "Required to transfer assets from another institution via ACATS" none
          "Funding via transfer from another brokerage" "funding_method" "Transfer"
      ∷ document_if "Letter of Authorization (LOA)"
          "Authorizes the transfer of assets on client's behalf" none
          "Funding via transfer from another brokerage" "funding_method" "Transfer"
      ∷ [];
  income_eligibility = none;
  contribution_limit = none;
  nigo_risks =
      nigo "Missing employment information" common "3-5 business day delay"
        "Employment section marked required in application flow"
      ∷ nigo "Account number format incorrect on ACAT form" common
          "ACAT rejected, 5-10 business day delay"
          "Account number format validated against contra-firm requirements"
      ∷ nigo "Unsigned application" occasional "Application returned, 5-7 business day delay"
          "DocuSign enforces signature before submission"
      ∷ [];
  estimated_minutes = 15;
  notes = none;
}

abbrev pub jtwros : AccountTypeRules
jtwros = record {
  account_type = "JTWROS";
  custodian_id = "pershing";
  display_name = "Pershing Joint Tenants with Right of Survivorship";
  signer_count = 2;
  requires_beneficiary = false;
  beneficiary_note = none;
  required_documents =
      document "Joint New Account Application" "Required for all joint accounts" none
      ∷ document "Form CRS" "SEC-required client relationship summary" none
      ∷ document "Advisory Addendum" "Required for advisory accounts" none
      ∷ [];
  conditional_documents =
      document_if "ACH Authorization" "Required for electronic funding setup" none "Funding via ACH"
        "funding_method" "ACH"
      ∷ document_if "Account Transfer Form (ACAT)"
          "Required to transfer assets from another institution via ACATS" none
          "Funding via transfer from another brokerage" "funding_method" "Transfer"
      ∷ document_if "Letter of Authorization (LOA)"
          "Authorizes the transfer of assets on client's behalf" none
          "Funding via transfer from another brokerage" "funding_method" "Transfer"
      ∷ [];
  income_eligibility = none;
  contribution_limit = none;
  nigo_risks =
      nigo "Only one owner signed" most_common "Application returned, 5-7 business day delay"
        "DocuSign routing requires both owner signatures before submission"
      ∷ nigo "Mismatched addresses between owners" common
          "3-5 business day delay for address verification"
          "Address validation compares both owners during intake"
      ∷ nigo "Missing second owner SSN" common "Application rejected, 5-7 business day delay"
          "SSN field required for both owners in application flow"
      ∷ [];
  estimated_minutes = 20;
  notes =
      some
        "Both owners must sign all documents. Both have equal, undivided interest. Pershing uses the ACATS system for all inter-firm transfers.";
}

abbrev pub joint_tic : AccountTypeRules
joint_tic = record {
  account_type = "Joint TIC";
  custodian_id = "pershing";
  display_name = "Pershing Joint Tenants in Common";
  signer_count = 2;
  requires_beneficiary = true;
  beneficiary_note =
      some
        "TIC has no right of survivorship — each owner's share passes to their estate or named beneficiaries. Pershing requires beneficiary designation at account opening.";
  required_documents =
      document "Joint New Account Application" "Required for all joint accounts" none
      ∷ document "Beneficiary Designation" "Required — no survivorship rights in TIC" none
      ∷ document "Form CRS" "SEC-required client relationship summary" none
      ∷ document "Advisory Addendum" "Required for advisory accounts" none
      ∷ [];
  conditional_documents =
      document_if "ACH Authorization" "Required for electronic funding setup" none "Funding via ACH"
        "funding_method" "ACH"
      ∷ document_if "Account Transfer Form (ACAT)"
          "Required to transfer assets from another institution via ACATS" none
          "Funding via transfer from another brokerage" "funding_method" "Transfer"
      ∷ document_if "Letter of Authorization (LOA)"
          "Authorizes the transfer of assets on client's behalf" none
          "Funding via transfer from another brokerage" "funding_method" "Transfer"
      ∷ [];
  income_eligibility = none;
  contribution_limit = none;
  nigo_risks =
      nigo "Missing beneficiary designation" most_common "5-7 business day delay"
        "Beneficiary form auto-included for all TIC accounts"
      ∷ nigo "Only one owner signed" most_common "Application returned, 5-7 business day delay"
          "DocuSign routing requires both owner signatures before submission"
      ∷ nigo "Mismatched addresses between owners" common
          "3-5 business day delay for address verification"
          "Address validation compares both owners during intake"
      ∷ nigo "Percentage ownership doesn't total 100%" occasional
          "Application returned, 3-5 business day delay"
          "Ownership percentage validation enforced before submission"
      ∷ [];
  estimated_minutes = 25;
  notes =
      some
        "Unlike JTWROS, each owner's share passes to their beneficiaries, not the surviving owner.";
}

abbrev pub trust : AccountTypeRules
trust = record {
  account_type = "Trust";
  custodian_id = "pershing";
  display_name = "Pershing Trust Account";
  signer_count = 1;
  requires_beneficiary = false;
  beneficiary_note = none;
  required_documents =
      document "Trust New Account Application" "Required for trust accounts" none
      ∷ document "Trust Certification/Abstract"
          "Verifies trust existence, trustees, and key provisions" none
      ∷ document "Form CRS" "SEC-required client relationship summary" none
      ∷ document "Advisory Addendum" "Required for advisory accounts" none
      ∷ [];
  conditional_documents =
      document_if "Full Trust Document"
        "Required when trust certification is insufficient or incomplete" none
        "Trust certification does not contain sufficient detail" "trust_certification_sufficient"
        "No"
      ∷ document_if "Corporate Resolution"
          "Pershing requires a corporate resolution for trusts established by a business entity"
          none "Trust established by a corporate or business entity" "trust_entity_type" "Corporate"
      ∷ [];
  income_eligibility = none;
  contribution_limit = none;
  nigo_risks =
      nigo "Trust certification expired or incomplete" most_common "7-14 business day delay"
        "Trust certification date and completeness validated during intake"
      ∷ nigo "Trustee not authorized in trust document" common
          "Account opening blocked until resolved"
          "Trustee name cross-referenced against trust certification during intake"
      ∷ nigo "Missing EIN for irrevocable trusts" common "5-7 business day delay"
          "EIN field required when trust type is irrevocable"
      ∷ nigo "Missing corporate resolution for entity-established trusts" occasional
          "7-10 business day delay"
          "Entity type check triggers corporate resolution requirement during intake"
      ∷ [];
  estimated_minutes = 25;
  notes =
      some
        "Signer must be named as trustee in the trust document. Revocable trusts use grantor's SSN; irrevocable trusts require a separate EIN. Pershing requires additional documentation for trusts established by business entities.";
}
