-- ===== src/Compliance/Templates.antt =====
-- `REMEDIATION_TEMPLATES` and `DEFAULT_KEYWORD_MAP` of frontend/src/lib/compliance-engine.ts.
use min_demo.Base.{ℕ, String, none, List, [], ◌∷◌}
use min_demo.Compliance.{KeywordMap, RemediationStep, AssignTo, advisor, ops, client, custodian}

abbrev step : ℕ → String → AssignTo → ℕ → RemediationStep
step order action assign_to follow_up_days = record {
  order = order;
  action = action;
  assign_to = assign_to;
  follow_up_days = follow_up_days;
  form_url = none;
}

abbrev pub remediation_templates : List (String × List RemediationStep)
remediation_templates =
    (
      "kyc-profile",
      step 1 "Schedule KYC meeting with client" advisor 3
          ∷ step 2 "Complete KYC questionnaire during meeting" advisor 0
          ∷ step 3 "Record KYC profile in Salesforce" ops 1
          ∷ [],
    )
    ∷ (
      "trusted-contact",
      step 1 "Send trusted contact designation form to client" ops 5
          ∷ step 2 "Client completes and returns form" client 7
          ∷ step 3 "Record trusted contact in CRM" ops 1
          ∷ [],
    )
    ∷ (
      "identity-verified",
      step 1 "Request government-issued ID from client" advisor 3
          ∷ step 2 "Client provides ID copy" client 5
          ∷ step 3 "Verify ID and record in compliance system" ops 1
          ∷ [],
    )
    ∷ (
      "suitability-profile",
      step 1 "Send suitability questionnaire to client" ops 3
          ∷ step 2 "Client completes risk tolerance and objectives" client 7
          ∷ step 3 "Review and approve suitability profile" advisor 2
          ∷ step 4 "Record suitability profile in CRM" ops 1
          ∷ [],
    )
    ∷ (
      "pte-compliance",
      step 1 "Prepare PTE 2020-02 analysis worksheet" advisor 2
          ∷ step 2 "Send PTE disclosure form via DocuSign" ops 1
          ∷ step 3 "Client reviews and signs PTE form" client 7
          ∷ step 4 "File signed PTE in compliance records" ops 1
          ∷ [],
    )
    ∷ (
      "form-crs",
      step 1 "Generate current Form CRS" ops 1
          ∷ step 2 "Deliver Form CRS to client via email" ops 1
          ∷ step 3 "Record delivery acknowledgment in CRM" ops 2
          ∷ [],
    )
    ∷ (
      "adv-delivery",
      step 1 "Prepare ADV Part 2A brochure" ops 1
          ∷ step 2 "Deliver ADV to client within 48 hours" ops 2
          ∷ step 3 "Record delivery in compliance log" ops 1
          ∷ [],
    )
    ∷ (
      "privacy-notice",
      step 1 "Generate annual privacy notice" ops 1
          ∷ step 2 "Send privacy notice to client" ops 1
          ∷ [],
    )
    ∷ (
      "beneficiary-designation",
      step 1 "Download custodian beneficiary change form" ops 1
          ∷ step 2 "Send beneficiary form via DocuSign" ops 1
          ∷ step 3 "Client completes and signs form" client 7
          ∷ step 4 "Submit signed form to custodian" ops 2
          ∷ step 5 "Confirm custodian processed the update" custodian 5
          ∷ [],
    )
    ∷ (
      "signatures",
      step 1 "Prepare required documents for signature" ops 1
          ∷ step 2 "Send envelope via DocuSign" ops 1
          ∷ step 3 "Client signs all documents" client 5
          ∷ step 4 "Verify all signatures received" ops 1
          ∷ [],
    )
    ∷ (
      "completeness-check",
      step 1 "Run completeness audit on household records" ops 2
          ∷ step 2 "Identify and request missing information" advisor 3
          ∷ step 3 "Record completeness check in Salesforce" ops 1
          ∷ [],
    )
    ∷ (
      "trust-certification",
      step 1 "Request trust certification from trustee" advisor 3
          ∷ step 2 "Client provides trust certification" client 7
          ∷ step 3 "File trust certification in compliance records" ops 1
          ∷ [],
    )
    ∷ (
      "entity-resolution",
      step 1 "Request corporate/LLC resolution from entity" advisor 5
          ∷ step 2 "Entity provides signed resolution" client 10
          ∷ step 3 "File entity resolution in compliance records" ops 1
          ∷ [],
    )
    ∷ (
      "authorized-signers",
      step 1 "Request authorized signer list from entity" advisor 3
          ∷ step 2 "Verify signers against entity documents" ops 2
          ∷ step 3 "Record authorized signers in CRM" ops 1
          ∷ [],
    )
    ∷ []

abbrev pub default_keyword_map : KeywordMap
default_keyword_map =
    ("kyc-profile", "kyc" ∷ "suitability" ∷ [])
    ∷ ("trusted-contact", "trusted contact" ∷ [])
    ∷ ("identity-verified", "identity verified" ∷ "gov id" ∷ [])
    ∷ ("suitability-profile", "risk" ∷ "investment objective" ∷ "suitability" ∷ [])
    ∷ ("pte-trigger", "rollover" ∷ "pte" ∷ [])
    ∷ ("pte-compliance", "pte" ∷ [])
    ∷ ("form-crs", "form crs" ∷ "client relationship summary" ∷ [])
    ∷ ("adv-delivery", "adv" ∷ "advisory" ∷ "brochure" ∷ [])
    ∷ ("privacy-notice", "privacy" ∷ [])
    ∷ ("beneficiary-designation", "beneficiar" ∷ [])
    ∷ ("signatures", "docusign" ∷ "docu" ∷ [])
    ∷ ("ach-authorization", "moneylink" ∷ "ach" ∷ [])
    ∷ ("completeness-check", "completeness" ∷ [])
    ∷ ("trust-certification", "trust certification" ∷ "trust cert" ∷ [])
    ∷ ("trustee-verification", "trustee" ∷ "trust verification" ∷ [])
    ∷ ("trust-agreement", "trust agreement" ∷ "trust document" ∷ [])
    ∷ ("authorized-signers", "authorized signer" ∷ "auth signer" ∷ [])
    ∷ ("erisa-compliance", "erisa" ∷ "plan document" ∷ [])
    ∷ ("entity-resolution", "entity resolution" ∷ "corporate resolution" ∷ "llc agreement" ∷ [])
    ∷ ("rmd-tracking", "rmd" ∷ "required minimum" ∷ [])
    ∷ []
