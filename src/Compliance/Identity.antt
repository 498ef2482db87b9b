-- ===== src/Compliance/Identity.antt =====
-- The checks of `runComplianceChecks` of frontend/src/lib/compliance-engine.ts on identity and
-- suitability.
use min_demo.Base.{
  String, Bool, ◌&&◌, none, some, List, [], ◌∷◌, ◌++◌, Text, any, ltb, str_eq, if◌then◌else◌,
  truthy, length, show_ℕ, ◌<>◌,
}
use min_demo.Compliance.{
  identity, suitability, pass, warn, fail, CheckResult, Contact, KeywordMap, effective_keyword_map,
  Scan, has_check, matched_keywords,
}
use min_demo.Compliance.Templates.{default_keyword_map}

module _ (lower : Text → Text) (scan : Scan) where
  abbrev pub keyword_map : KeywordMap
  keyword_map = effective_keyword_map default_keyword_map scan.overrides scan.stored_keywords

  abbrev pub has : String → Bool
  has id = has_check lower scan.tasks keyword_map id

  -- The parts of a contact that are there, joined by commas.
  unfoldable pub contact_fields : Contact → List String
  contact_fields c =
      (if truthy c.first_name && truthy c.last_name
        then (("Name: " <> (c.first_name <> (" " <> c.last_name))) ∷ [])
        else [])
      ++ ((if truthy c.email then ("Email populated" ∷ []) else [])
          ++ (if truthy c.phone then ("Phone populated" ∷ []) else []))

  unfoldable pub join_comma : List String → String
  join_comma [] = ""
  join_comma (s ∷ []) = s
  join_comma (s ∷ t ∷ ss) = s <> (", " <> join_comma (t ∷ ss))

  unfoldable pub contact_lines : List Contact → List String
  contact_lines [] = []
  contact_lines (c ∷ cs) =
      let fields = contact_fields c in
      (if ltb 0 (length fields) then (join_comma fields ∷ []) else []) ++ contact_lines cs

  unfoldable pub contact_count : String
  contact_count = show_ℕ (length scan.contacts) <> " contact(s) on file"

  unfoldable pub kyc_evidence : List String
  kyc_evidence =
      (if ltb 0 (length scan.contacts) then (contact_count ∷ []) else [])
      ++ contact_lines scan.contacts

  unfoldable pub kyc_profile : CheckResult
  kyc_profile =
      let matched = has "kyc-profile" in
      record {
        id = "kyc-profile";
        category = identity;
        label = "KYC Profile Completed";
        regulation = "FINRA Rule 2090 (Know Your Customer)";
        status = if matched then pass else fail;
        detail =
            if matched
            then ("KYC recorded for " <> (show_ℕ (length scan.contacts) <> " contact(s)"))
            else "No KYC/suitability record found — required before account activity";
        evidence = if matched then some kyc_evidence else none;
        why_it_matters =
            "FINRA requires firms to know the essential facts about every customer. Without a KYC profile, the firm cannot demonstrate suitability of recommendations during an examination.";
        remediation = none;
      }

  unfoldable pub trusted_contact : CheckResult
  trusted_contact =
      let matched = has "trusted-contact" in
      record {
        id = "trusted-contact";
        category = identity;
        label = "Trusted Contact Designated";
        regulation = "FINRA Rule 4512";
        status = if matched then pass else warn;
        detail =
            if matched
            then "Trusted contact on file"
            else "No trusted contact task found — required for new accounts opened after Feb 2018";
        evidence = none;
        why_it_matters =
            "A trusted contact allows the firm to reach someone if there are concerns about the client's wellbeing or potential financial exploitation. Required for all accounts opened after February 5, 2018.";
        remediation = none;
      }

  unfoldable pub identity_verified : CheckResult
  identity_verified =
      let matched = has "identity-verified" in
      record {
        id = "identity-verified";
        category = identity;
        label = "Identity Verification";
        regulation = "USA PATRIOT Act / CIP Rule";
        status = if matched then pass else fail;
        detail =
            if matched
            then "Government ID verified and on file"
            else "No identity verification record — required by Customer Identification Program";
        evidence = none;
        why_it_matters =
            "The Customer Identification Program (CIP) requires firms to verify each customer's identity using government-issued documents. Failure creates AML compliance risk and potential enforcement action.";
        remediation = none;
      }

  -- Which of the default keywords of "suitability-profile" matched; a generic line where only
  -- others did.
  unfoldable pub suit_lines : List String → List String
  suit_lines kws =
      (if any (str_eq "risk") kws then ("Risk tolerance documented" ∷ []) else [])
      ++ ((if any (str_eq "investment objective") kws
            then ("Investment objectives documented" ∷ [])
            else [])
          ++ (if any (str_eq "suitability") kws
              then ("Suitability questionnaire completed" ∷ [])
              else []))

  unfoldable pub suit_evidence : List String
  suit_evidence =
      let lines =
        suit_lines (matched_keywords lower scan.tasks keyword_map "suitability-profile") in
      if ltb 0 (length lines)
      then lines
      else (if has "suitability-profile" then ("Suitability profile documented" ∷ []) else [])

  unfoldable pub suitability_profile : CheckResult
  suitability_profile =
      let matched = has "suitability-profile" in
      record {
        id = "suitability-profile";
        category = suitability;
        label = "Suitability Profile Current";
        regulation = "FINRA Rule 2111 / Reg BI";
        status = if matched then pass else fail;
        detail =
            if matched
            then "Risk tolerance, investment objective, and financial profile on file"
            else "No suitability profile found — required before investment recommendations";
        evidence = if matched then some suit_evidence else none;
        why_it_matters =
            "Reg BI requires a reasonable basis to believe any recommendation is in the client's best interest. Without a documented suitability profile, every recommendation is indefensible in an exam.";
        remediation = none;
      }

  unfoldable pub pte_compliance : CheckResult
  pte_compliance =
      let matched = has "pte-compliance" in
      record {
        id = "pte-compliance";
        category = suitability;
        label = "PTE 2020-02 Documentation";
        regulation = "DOL Prohibited Transaction Exemption";
        status = if matched then pass else warn;
        detail =
            if matched
            then "Rollover Recommendation + PTE form generated and signed"
            else "Rollover detected but no PTE documentation found";
        evidence = none;
        why_it_matters =
            "DOL PTE 2020-02 requires documented proof that a rollover recommendation is in the client's best interest. Missing PTE documentation is a top enforcement priority — fines can exceed $100K per violation.";
        remediation = none;
      }

  abbrev pub has_rollover : Bool
  has_rollover = has "pte-trigger"
