-- ===== src/Custodian/Lookup/Tests.antt =====
-- Concrete inputs for the rules of frontend/src/lib/custodian-rules.ts.
use min_demo.Base.{
  ◌≡◌, refl, String, true, false, Option, none, some, List, [], ◌∷◌, map, str_eq, if◌then◌else◌,
}
use min_demo.Custodian.Rules.{NigoRisk, Frequency, DocumentRule}
use min_demo.Custodian.Lookup.{
  rules_registry, find_rules, get_rules_for_account_type, get_all_account_type_names,
  get_required_documents, push_conditional, single, get_nigo_risks, risks_of, CompletedFields,
}
use min_demo.Custodian.Lookup.Income.{check_income_eligibility_lem, IsIncomeCheck}
use min_demo.Custodian.Lookup.Risks.{MostCommonFirst, with_frequency, get_nigo_risks-InOrder}

names_at_altus : get_all_account_type_names "altus" ≡ []
unfolding get_all_account_type_names rules_registry
names_at_altus = refl

abbrev by_ach : String → Option String
by_ach field = if str_eq field "funding_method" then some "ACH" else none

ach_documents :
    map
      (λ (d : DocumentRule). d.name)
      (get_required_documents "schwab" "Individual Brokerage" by_ach)
    ≡ "Account Application" ∷ "Form CRS" ∷ "Advisory Addendum" ∷ "MoneyLink Authorization" ∷ []
unfolding get_required_documents push_conditional get_rules_for_account_type rules_registry
    find_rules
ach_documents = refl

check_income_eligibility_lem_example : IsIncomeCheck "schwab" "Roth IRA" 150000 single
check_income_eligibility_lem_example =
    check_income_eligibility_lem "schwab" "Roth IRA" 150000 single

get_nigo_risks-InOrder_example :
    MostCommonFirst (get_nigo_risks "pershing" "Roth IRA")
    × ((f : Frequency)
        → with_frequency f (get_nigo_risks "pershing" "Roth IRA")
          ≡ with_frequency f (risks_of "pershing" "Roth IRA"))
    × ((ys : List NigoRisk)
        → MostCommonFirst ys
        → ((f : Frequency)
            → with_frequency f ys ≡ with_frequency f (risks_of "pershing" "Roth IRA"))
        → ys ≡ get_nigo_risks "pershing" "Roth IRA")
get_nigo_risks-InOrder_example = get_nigo_risks-InOrder "pershing" "Roth IRA"

abbrev just_opened : CompletedFields
just_opened = record {
  has_beneficiary = false;
  signer_count = 1;
  income_verified = false;
  has_rollover_rec = false;
}

abbrev designated : CompletedFields
designated = record just_opened { has_beneficiary = true; signer_count = 2 }

abbrev as_is : String → String
as_is s = s
