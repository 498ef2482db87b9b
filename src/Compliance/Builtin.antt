-- ===== src/Compliance/Builtin.antt =====
-- The checks that `runComplianceChecks` of frontend/src/lib/compliance-engine.ts makes of every
-- household.
use min_demo.Base.{
  ℕ, ◌-◌, ◌/◌, Option, none, some, List, [], ◌∷◌, ◌++◌, Text, ltb, if◌then◌else◌, show_ℕ, ◌<>◌,
}
use min_demo.Compliance.{regulatory, warn, CheckResult, Scan}
use min_demo.Compliance.Identity.{
  has, kyc_profile, trusted_contact, identity_verified, suitability_profile, pte_compliance,
  has_rollover,
}
use min_demo.Compliance.Documents.{
  form_crs, adv_delivery, privacy_notice, beneficiary_designation, signatures, ach_authorization,
  completeness_check,
}

module _ (lower : Text → Text) (scan : Scan) where
  -- `Math.floor((now - created) / day)`, of which only values above 0 matter: a date in the future
  -- gives a negative number there and 0 here.
  unfoldable pub days_since_creation : Option ℕ
  days_since_creation = elim scan.created_at [
    | none ↦ none
    | some created ↦ some ((scan.now - created) / 86400000)
  ]

  unfoldable pub annual_review : ℕ → CheckResult
  annual_review days = record {
    id = "annual-review";
    category = regulatory;
    label = "Annual Review Due";
    regulation = "SEC Examination Best Practice";
    status = warn;
    detail = "Household created " <> (show_ℕ days <> " days ago — annual review recommended");
    evidence = none;
    why_it_matters =
        "The SEC expects firms to conduct regular reviews of client accounts and relationships. A household without a review in over a year signals inadequate supervision to examiners.";
    remediation = none;
  }

  unfoldable pub annual_review_due : Option ℕ → List CheckResult
  annual_review_due none = []
  annual_review_due (some days) = if ltb 365 days then annual_review days ∷ [] else []

  -- The checks of every household, in their order.
  unfoldable pub builtin_checks : List CheckResult
  unfolding kyc_profile trusted_contact identity_verified suitability_profile pte_compliance
      form_crs adv_delivery privacy_notice beneficiary_designation signatures ach_authorization
      completeness_check
  builtin_checks =
      (kyc_profile lower scan
        ∷ trusted_contact lower scan
        ∷ identity_verified lower scan
        ∷ suitability_profile lower scan
        ∷ [])
      ++ ((if has_rollover lower scan then pte_compliance lower scan ∷ [] else [])
          ++ ((form_crs lower scan
                ∷ adv_delivery lower scan
                ∷ privacy_notice lower scan
                ∷ beneficiary_designation lower scan
                ∷ signatures lower scan
                ∷ [])
              ++ ((if has lower scan "ach-authorization"
                    then ach_authorization lower scan ∷ []
                    else [])
                  ++ ((completeness_check lower scan ∷ [])
                      ++ annual_review_due days_since_creation))))
