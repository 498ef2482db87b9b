-- ===== src/Format.antt =====
-- The input formatting and the validation of a client of frontend/src/lib/format.ts. Text that the
-- code walks is a list of code units. A time is JavaScript's time value moved up so that the
-- earliest date there is stands at 0; `time_of` is `new Date(text).getTime()`, `none` for NaN.
pub mod Validation
mod Tests
pub mod Email
pub mod Digits
use min_demo.Base.{
  ℕ, zero, suc, ◌*◌, ◌-◌, String, Bool, true, false, not, ◌&&◌, ◌||◌, Option, none, some, List, [],
  ◌∷◌, ◌++◌, leb, ltb, ◌==◌, if◌then◌else◌, filter, take, drop, length, truthy, Text, units,
  is_space, includes, str_eq, ◌<>◌,
}
use min_demo.Types.{ClientInfo, AccountRequest}
use min_demo.Custodian.{CustodianConfig}

-- `\d`.
abbrev pub is_digit : ℕ → Bool
is_digit c = leb b'0' c && leb c b'9'

-- `v.replace(/\D/g, "")`.
unfoldable pub digits_of : Text → Text
digits_of v = filter is_digit v

-- `fmtSSN` on the digits that it keeps.
unfoldable pub group_ssn : Text → Text
group_ssn d =
    if leb (length d) 3
    then d
    else if leb (length d) 5
    then take 3 d ++ b'-' ∷ drop 3 d
    else take 3 d ++ b'-' ∷ (take 2 (drop 3 d) ++ b'-' ∷ drop 5 d)

unfoldable pub fmt_ssn : Text → Text
fmt_ssn v = group_ssn (take 9 (digits_of v))

-- `fmtPhone` on the digits that it keeps.
unfoldable pub group_phone : Text → Text
group_phone d =
    if leb (length d) 3
    then d
    else if leb (length d) 6
    then b'(' ∷ (take 3 d ++ b')' ∷ b' ' ∷ drop 3 d)
    else b'(' ∷ (take 3 d ++ b')' ∷ b' ' ∷ (take 3 (drop 3 d) ++ b'-' ∷ drop 6 d))

unfoldable pub fmt_phone : Text → Text
fmt_phone v = group_phone (take 10 (digits_of v))

-- `[^\s@]`.
unfoldable pub is_part : ℕ → Bool
is_part c = not (is_space c) && not (c == b'@')

-- `[^\s@]+$`, with whether a unit has been read.
unfoldable pub parts_to_end : Bool → Text → Bool
parts_to_end seen [] = seen
parts_to_end seen (c ∷ s) = is_part c && parts_to_end true s

-- `[^\s@]+\.[^\s@]+$`: at a dot the pattern may go on to the last group or read on.
unfoldable pub after_at : Bool → Text → Bool
after_at seen [] = false
after_at seen (c ∷ s) =
    let here = seen && (c == b'.' && parts_to_end false s) in
    let later = is_part c && after_at true s in here || later

-- `^[^\s@]+@[^\s@]+\.[^\s@]+$`.
unfoldable pub email_from : Bool → Text → Bool
email_from seen [] = false
email_from seen (c ∷ s) =
    let here = seen && (c == b'@' && after_at false s) in
    let later = is_part c && email_from true s in here || later

unfoldable pub is_valid_email : Text → Bool
is_valid_email e = email_from false e

-- `365.25 * 24 * 60 * 60 * 1000`.
abbrev pub year_ms : ℕ
year_ms = 31557600000

abbrev pub ssn_complete : String → Bool
ssn_complete s = length (digits_of (units s)) == 9

abbrev pub email_ok : String → Bool
email_ok s = is_valid_email (units s)

-- `if (missing) m.push(label)`, before what the later lines push.
abbrev pub ask : Bool → String → List String → List String
ask ok label rest = if ok then rest else label ∷ rest

module _ (time_of : String → Option ℕ) (now : ℕ) where
  -- `age >= 18 && age < 120`, multiplied out; a comparison with NaN is false.
  abbrev in_age_range : Option ℕ → Bool
  in_age_range none = false
  in_age_range (some t) = leb (18 * year_ms) (now - t) && ltb (now - t) (120 * year_ms)

  unfoldable pub is_valid_dob : String → Bool
  is_valid_dob d = truthy d && in_age_range (time_of d)

  unfoldable pub is_client_valid : ClientInfo → Bool
  is_client_valid c =
      truthy c.first_name
      && (truthy c.last_name
          && (truthy c.email
              && (email_ok c.email
                  && (truthy c.phone
                      && (truthy c.street
                          && (truthy c.city
                              && (truthy c.us_state
                                  && (truthy c.zip
                                      && (truthy c.dob
                                          && (is_valid_dob c.dob
                                              && (truthy c.ssn
                                                  && (ssn_complete c.ssn
                                                      && (truthy c.id_number
                                                          && (truthy c.id_state
                                                            && (truthy c.id_expiration
                                                            && (truthy c.marital_status
                                                            && (truthy c.employment_status
                                                            && (truthy c.annual_income
                                                            && (truthy c.net_worth
                                                            && (truthy c.liquid_net_worth
                                                            && (truthy c.investment_experience
                                                            && (truthy c.risk_tolerance
                                                            && (truthy c.investment_objective
                                                            && (truthy c.trusted_contact_name
                                                            && (truthy c.trusted_contact_last_name
                                                            && (truthy c.trusted_contact_phone
                                                            && (truthy
                                                            c.trusted_contact_relationship)))))))))))))))))))))))))))

  unfoldable pub missing_fields : ClientInfo → List String
  missing_fields c = ask (truthy c.first_name) "First name" (
      ask (truthy c.last_name) "Last name" (
        ask (truthy c.email && email_ok c.email) "Email" (
          ask (truthy c.phone) "Phone" (
            ask (truthy c.street) "Street" (
              ask (truthy c.city) "City" (
                ask (truthy c.us_state) "State" (
                  ask (truthy c.zip) "Zip" (
                    ask (truthy c.dob && is_valid_dob c.dob) "DOB" (
                      ask (truthy c.ssn && ssn_complete c.ssn) "SSN" (
                        ask (truthy c.id_number) "ID #" (
                          ask (truthy c.id_state) "ID State" (
                            ask (truthy c.id_expiration) "ID Exp." (
                              ask (truthy c.marital_status) "Marital status" (
                                ask (truthy c.employment_status) "Employment" (
                                  ask (truthy c.annual_income) "Income" (
                                    ask (truthy c.net_worth) "Net worth" (
                                      ask (truthy c.liquid_net_worth) "Liquid NW" (
                                        ask (truthy c.investment_experience) "Inv. experience" (
                                          ask (truthy c.risk_tolerance) "Risk tolerance" (
                                            ask (truthy c.investment_objective) "Inv. objective" (
                                              ask (truthy c.trusted_contact_name)
                                                "Trusted contact first"
                                                (ask (truthy c.trusted_contact_last_name)
                                                  "Trusted contact last"
                                                  (ask (truthy c.trusted_contact_phone)
                                                    "Trusted contact phone"
                                                    (ask (truthy c.trusted_contact_relationship)
                                                      "Trusted contact relationship"
                                                      []))))))))))))))))))))))))

-- `a.type.includes("TOD")`, `includes("JTWROS")` and the comparison that follow one another.
unfoldable pub needs_bene_form : AccountRequest → Bool
needs_bene_form a =
    let t = units a.acct_type in
    not (includes (units "TOD") t)
    && (not (includes (units "JTWROS") t) && not (str_eq a.acct_type "Community Property"))

-- `a.funding === "…"`.
abbrev pub funded_by : AccountRequest → String → Bool
funded_by a how = elim (a.funding) [ none ↦ false | some f ↦ str_eq f how ]

-- `if (test) d.push(…)`.
abbrev pub push_if : Bool → List String → List String
push_if true docs = docs
push_if false docs = []

unfoldable pub docs_for : CustodianConfig → AccountRequest → Bool → List String
docs_for k a setup_ach =
    ((k.doc_prefix <> " " <> a.acct_type <> " Account Application")
      ∷ k.form_crs
      ∷ "Advisory Business Practices Addendum"
      ∷ [])
    ++ (push_if (needs_bene_form a) ("Beneficiary Designation Form" ∷ [])
        ++ (push_if setup_ach ((k.ach_label <> " Authorization") ∷ [])
            ++ (push_if (funded_by a "Rollover") (
                  "Rollover Recommendation Form" ∷ "Prohibited Transaction Exemption (PTE) Form"
                  ∷ [])
                ++ push_if (funded_by a "In-kind TOA" || funded_by a "Cash TOA")
                    (k.transfer_form ∷ "Letter of Authorization (LOA)" ∷ []))))
