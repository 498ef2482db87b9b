-- ===== src/Format/Tests.antt =====
-- Concrete inputs for the input formatting and the validation of frontend/src/lib/format.ts.
use min_demo.Base.{
  ℕ, ◌≡◌, refl, String, true, false, Option, none, some, [], ◌∷◌, units, ◌↔◌, take, ◌++◌,
}
use min_demo.Types.{ClientInfo, AccountRequest, empty_client}
use min_demo.Custodian.{custodian, get_custodian, active_custodian}
use min_demo.Format.{
  fmt_ssn, group_ssn, fmt_phone, group_phone, digits_of, is_part, parts_to_end, after_at,
  email_from, is_valid_email, is_client_valid, missing_fields, is_valid_dob, docs_for,
  needs_bene_form,
}
use min_demo.Format.Digits.{formatted_while_typing}
use min_demo.Format.Email.{is_valid_email_iff, IsAddress}
use min_demo.Format.Validation.{is_client_valid_iff}

ssn_grouped : fmt_ssn (units "12a345 67890") ≡ units "123-45-6789"
unfolding fmt_ssn group_ssn digits_of
ssn_grouped = refl

phone_grouped : fmt_phone (units "4155550199") ≡ units "(415) 555-0199"
unfolding fmt_phone group_phone digits_of
phone_grouped = refl

email_taken : is_valid_email (units "a.b@c.d.com") ≡ true
unfolding is_valid_email email_from after_at parts_to_end is_part
email_taken = refl

email_refused : is_valid_email (units "a@b@c.com") ≡ false
unfolding is_valid_email email_from after_at parts_to_end is_part
email_refused = refl

-- Noon of 1 January 1970 and the start of 2026, on a clock that starts in 1970.
abbrev born : String → Option ℕ
born d = some 43200000

abbrev in_2026 : ℕ
in_2026 = 1767225600000

of_age : is_valid_dob born in_2026 "1970-01-01" ≡ true
unfolding is_valid_dob
of_age = refl

abbrev applicant : ClientInfo
applicant = record empty_client {
  first_name = "Ann";
  last_name = "Lee";
  email = "ann@lee.com";
  phone = "(415) 555-0199";
  street = "1 Main St";
  city = "Reno";
  us_state = "NV";
  zip = "89501";
  dob = "1970-01-01";
  ssn = "123-45-678";
}

asks_for_rest : take 3 (missing_fields born in_2026 applicant) ≡ "SSN" ∷ "ID #" ∷ "ID State" ∷ []
unfolding missing_fields is_valid_dob is_valid_email email_from after_at parts_to_end is_part
    digits_of
asks_for_rest = refl

abbrev ira : AccountRequest
ira = record {
  id = "i1";
  owner = "Ann Lee";
  acct_type = "IRA";
  purpose = none;
  funding = some "Rollover";
  allocation = none;
  amount = none;
  funding_amount = none;
  signers = 1;
}

ira_docs :
    docs_for (custodian none) ira false
    ≡ "Charles Schwab IRA Account Application" ∷ "Form CRS (Client Relationship Summary)"
      ∷ "Advisory Business Practices Addendum" ∷ "Beneficiary Designation Form"
      ∷ "Rollover Recommendation Form" ∷ "Prohibited Transaction Exemption (PTE) Form" ∷ []
unfolding docs_for needs_bene_form custodian get_custodian active_custodian
ira_docs = refl

formatted_while_typing_example :
    (fmt_ssn (fmt_ssn (units "12345") ++ units "6") ≡ fmt_ssn (units "12345" ++ units "6"))
    × (fmt_phone (fmt_phone (units "12345") ++ units "6") ≡ fmt_phone (units "12345" ++ units "6"))
    × (digits_of (fmt_ssn (units "12345")) ≡ take 9 (digits_of (units "12345")))
    × (digits_of (fmt_phone (units "12345")) ≡ take 10 (digits_of (units "12345")))
formatted_while_typing_example = formatted_while_typing (units "12345") (units "6")

is_valid_email_iff_example :
    (is_valid_email (units "ann@lee.com") ≡ true) ↔ IsAddress false (units "ann@lee.com")
is_valid_email_iff_example = is_valid_email_iff (units "ann@lee.com")

is_client_valid_iff_example :
    (is_client_valid born in_2026 applicant ≡ true) ↔ (missing_fields born in_2026 applicant ≡ [])
is_client_valid_iff_example = is_client_valid_iff born in_2026 applicant
