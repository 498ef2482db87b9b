-- ===== src/Compliance/ByType.antt =====
-- The checks of `runComplianceChecks` (frontend/src/lib/compliance-engine.ts) for trust, entity and
-- retirement accounts.
use min_demo.Base.{none, List, [], ◌∷◌, ◌++◌, Text, if◌then◌else◌}
use min_demo.Compliance.{
  AccountType, trust, entity, retirement, suitability, account, regulatory, pass, warn, fail,
  CheckResult, Scan,
}
use min_demo.Compliance.Identity.{has, has_rollover}

module _ (lower : Text → Text) (scan : Scan) where
  trust_certification : CheckResult
  trust_certification =
      let matched = has lower scan "trust-certification" in
      record {
        id = "trust-certification";
        category = account;
        label = "Trust Certification";
        regulation = "Custodial Requirement / Trust Compliance";
        status = if matched then pass else fail;
        detail =
            if matched
            then "Trust certification on file"
            else "No trust certification found — required for trust accounts";
        evidence = none;
        why_it_matters =
            "Trust accounts require a valid trust certification to verify the trust's existence and the trustee's authority. Without it, custodians cannot accept instructions.";
        remediation = none;
      }

  trustee_verification : CheckResult
  trustee_verification =
      let matched = has lower scan "trustee-verification" in
      record {
        id = "trustee-verification";
        category = account;
        label = "Trustee Verification";
        regulation = "UCC / State Trust Law";
        status = if matched then pass else warn;
        detail =
            if matched
            then "Trustee authority verified"
            else "No trustee verification record — verify trustee authority before transactions";
        evidence = none;
        why_it_matters =
            "Firms must verify that the person directing trust assets has legal authority as trustee. Acting on unauthorized instructions creates fiduciary liability.";
        remediation = none;
      }

  trust_agreement : CheckResult
  trust_agreement =
      let matched = has lower scan "trust-agreement" in
      record {
        id = "trust-agreement";
        category = account;
        label = "Trust Agreement on File";
        regulation = "Firm Best Practice";
        status = if matched then pass else warn;
        detail =
            if matched
            then "Trust agreement document on file"
            else "No trust agreement on file — needed for investment authority reference";
        evidence = none;
        why_it_matters =
            "The trust agreement defines investment powers, distribution rules, and successor trustees. Without it on file, the firm cannot verify compliance with trust terms.";
        remediation = none;
      }

  authorized_signers : CheckResult
  authorized_signers =
      let matched = has lower scan "authorized-signers" in
      record {
        id = "authorized-signers";
        category = account;
        label = "Authorized Signers Documented";
        regulation = "Custodial Requirement";
        status = if matched then pass else fail;
        detail =
            if matched
            then "Authorized signers on file"
            else "No authorized signers documented — required for entity accounts";
        evidence = none;
        why_it_matters =
            "Entity accounts require documented authorized signers to prevent unauthorized transactions. This is a top NIGO rejection reason for entity applications.";
        remediation = none;
      }

  erisa_compliance : CheckResult
  erisa_compliance =
      let matched = has lower scan "erisa-compliance" in
      record {
        id = "erisa-compliance";
        category = regulatory;
        label = "ERISA Compliance";
        regulation = "ERISA / DOL";
        status = if matched then pass else warn;
        detail =
            if matched
            then "ERISA compliance documentation on file"
            else "No ERISA documentation — verify if entity is subject to ERISA requirements";
        evidence = none;
        why_it_matters =
            "If the entity is an employee benefit plan, ERISA imposes fiduciary duties and prohibited transaction rules. Non-compliance can result in DOL enforcement action.";
        remediation = none;
      }

  entity_resolution : CheckResult
  entity_resolution =
      let matched = has lower scan "entity-resolution" in
      record {
        id = "entity-resolution";
        category = account;
        label = "Entity Resolution on File";
        regulation = "State Corporate Law";
        status = if matched then pass else fail;
        detail =
            if matched
            then "Entity resolution on file"
            else "No corporate/LLC resolution on file — required to authorize account opening";
        evidence = none;
        why_it_matters =
            "An entity resolution (corporate or LLC) authorizes specific individuals to act on behalf of the entity. Without it, the firm has no proof of authority.";
        remediation = none;
      }

  retirement_pte : CheckResult
  retirement_pte =
      let matched = has lower scan "pte-compliance" in
      record {
        id = "pte-compliance";
        category = suitability;
        label = "PTE 2020-02 Documentation";
        regulation = "DOL Prohibited Transaction Exemption";
        status = if matched then pass else warn;
        detail =
            if matched
            then "PTE documentation on file"
            else "Retirement account — verify PTE documentation if rollover recommended";
        evidence = none;
        why_it_matters =
            "DOL PTE 2020-02 requires documented proof that a rollover recommendation is in the client's best interest. Missing PTE documentation is a top enforcement priority.";
        remediation = none;
      }

  rmd_tracking : CheckResult
  rmd_tracking =
      let matched = has lower scan "rmd-tracking" in
      record {
        id = "rmd-tracking";
        category = regulatory;
        label = "RMD Tracking";
        regulation = "IRC Section 401(a)(9)";
        status = if matched then pass else warn;
        detail =
            if matched
            then "RMD tracking in place"
            else "No RMD tracking record — verify if account holder is subject to RMDs";
        evidence = none;
        why_it_matters =
            "Required Minimum Distributions must be taken by the deadline or the client faces a 25% excise tax on the shortfall. Tracking RMDs is essential for retirement accounts.";
        remediation = none;
      }

  unfoldable pub type_checks : AccountType → List CheckResult
  unfolding trust_certification trustee_verification trust_agreement authorized_signers
      erisa_compliance entity_resolution retirement_pte rmd_tracking
  type_checks trust = trust_certification ∷ trustee_verification ∷ trust_agreement ∷ []
  type_checks entity = authorized_signers ∷ erisa_compliance ∷ entity_resolution ∷ []
  type_checks retirement =
      (if has_rollover lower scan then [] else retirement_pte ∷ []) ++ (rmd_tracking ∷ [])
  type_checks _ = []
