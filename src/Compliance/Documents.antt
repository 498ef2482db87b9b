-- ===== src/Compliance/Documents.antt =====
-- The checks of `runComplianceChecks` of frontend/src/lib/compliance-engine.ts on documents, the
-- account setup and completeness.
use min_demo.Base.{
  String, none, some, List, [], ◌∷◌, map, Text, units, includes, any, filter, ltb, str_eq,
  if◌then◌else◌, length, take, show_ℕ, ◌<>◌,
}
use min_demo.Compliance.{
  documents, account, regulatory, pass, warn, fail, CheckResult, Task, keywords, short_name, Scan,
}
use min_demo.Compliance.Identity.{keyword_map, has, contact_count}

module _ (lower : Text → Text) (scan : Scan) where
  unfoldable pub form_crs : CheckResult
  form_crs =
      let matched = has lower scan "form-crs" in
      record {
        id = "form-crs";
        category = documents;
        label = "Form CRS Delivered";
        regulation = "SEC Rule 17a-14 / Reg BI";
        status = if matched then pass else fail;
        detail =
            if matched
            then "Form CRS delivered and acknowledged"
            else "No Form CRS delivery record — required at or before account opening";
        evidence = none;
        why_it_matters =
            "Form CRS must be delivered before or at the time of an investment recommendation. SEC examiners check for delivery records as a priority item. Missing CRS is a common deficiency finding.";
        remediation = none;
      }

  unfoldable pub adv_delivery : CheckResult
  adv_delivery =
      let matched = has lower scan "adv-delivery" in
      record {
        id = "adv-delivery";
        category = documents;
        label = "ADV Part 2A Disclosure";
        regulation = "SEC Rule 204-3 (Brochure Rule)";
        status = if matched then pass else warn;
        detail =
            if matched
            then "Advisory business practices addendum delivered"
            else "No ADV delivery record found — required within 48 hours of engagement";
        evidence = none;
        why_it_matters =
            "The Brochure Rule requires delivery of ADV Part 2A before or at the time of entering an advisory contract. It must also be offered annually. This is one of the first items SEC examiners request.";
        remediation = none;
      }

  unfoldable pub privacy_notice : CheckResult
  privacy_notice =
      let matched = has lower scan "privacy-notice" in
      record {
        id = "privacy-notice";
        category = documents;
        label = "Privacy Notice Delivered";
        regulation = "Regulation S-P";
        status = if matched then pass else warn;
        detail =
            if matched
            then "Privacy notice delivered"
            else "No privacy notice record — required annually and at account opening";
        evidence = none;
        why_it_matters =
            "Regulation S-P requires initial and annual privacy notice delivery. While often overlooked, missing privacy notices can result in enforcement actions during routine examinations.";
        remediation = none;
      }

  unfoldable pub beneficiary_designation : CheckResult
  beneficiary_designation =
      let matched = has lower scan "beneficiary-designation" in
      record {
        id = "beneficiary-designation";
        category = account;
        label = "Beneficiary Designations Complete";
        regulation = "Firm Best Practice / ERISA";
        status = if matched then pass else warn;
        detail =
            if matched
            then "Beneficiary designations recorded for all applicable accounts"
            else "No beneficiary designation record — recommended for all retirement accounts";
        evidence = none;
        why_it_matters =
            "Missing beneficiary designations cause assets to default to the estate, potentially conflicting with the client's planning intent. This is also the #1 Schwab NIGO rejection reason for IRA applications.";
        remediation = none;
      }

  -- The subjects that name a keyword of "signatures", which is not lowered here.
  unfoldable pub docu_tasks : List Task
  docu_tasks =
      filter
        (λ t.
          any (λ kw. includes (units kw) (lower (units t.subject)))
            (keywords (keyword_map lower scan) "signatures"))
        scan.tasks

  unfoldable pub envelope_line : Task → String
  envelope_line t = "Envelope: " <> (t.subject <> (" (" <> (t.status <> ")")))

  unfoldable pub signatures : CheckResult
  signatures =
      let matched = has lower scan "signatures" in
      record {
        id = "signatures";
        category = account;
        label = "All Signatures Obtained";
        regulation = "Custodial Requirement / " <> short_name scan.custodian_id;
        status = if matched then pass else fail;
        detail =
            if matched
            then "DocuSign envelopes sent and tracked"
            else "No signature record found — accounts cannot be funded without signed applications";
        evidence = if matched then some (map envelope_line (take 3 docu_tasks)) else none;
        why_it_matters =
            short_name scan.custodian_id
            <> " requires signed originals (or DocuSign equivalents) for all account applications. Unsigned applications will be rejected as NIGO.";
        remediation = none;
      }

  unfoldable pub ach_authorization : CheckResult
  ach_authorization = record {
    id = "ach-authorization";
    category = account;
    label = "ACH Authorization on File";
    regulation = "NACHA Operating Rules";
    status = pass;
    detail = "MoneyLink/ACH authorization recorded";
    evidence = none;
    why_it_matters =
        "NACHA rules require explicit authorization before initiating ACH debits. The authorization form must be retained for 2 years after revocation.";
    remediation = none;
  }

  unfoldable pub completeness_evidence : List String
  completeness_evidence =
      let done = length (filter (λ t. str_eq t.status "Completed") scan.tasks) in
      (show_ℕ (length scan.tasks) <> " total SF records scanned")
      ∷ (contact_count lower scan
          ∷ (if ltb 0 done then ((show_ℕ done <> " tasks completed") ∷ []) else []))

  unfoldable pub completeness_check : CheckResult
  completeness_check =
      let matched = has lower scan "completeness-check" in
      record {
        id = "completeness-check";
        category = regulatory;
        label = "Completeness Check Passed";
        regulation = "SEC Examination Readiness";
        status = if matched then pass else fail;
        detail =
            if matched
            then "All required information verified and completeness check recorded"
            else "No completeness check on file — creates audit risk during SEC examination";
        evidence = if matched then some completeness_evidence else none;
        why_it_matters =
            "SEC examiners expect a documented completeness check showing all client information was verified before account funding. This is your first line of defense during an exam.";
        remediation = none;
      }
