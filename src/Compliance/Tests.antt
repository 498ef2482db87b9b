-- ===== src/Compliance/Tests.antt =====
-- The compliance engine at concrete households.
use min_demo.Base.{
  ◌+◌, ◌≡◌, refl, true, false, ◌&&◌, some, [], ◌∷◌, map, Text, units, any, leb, if◌then◌else◌,
}
use min_demo.Compliance.{
  retirement, Task, CustomCheck, lookup, Scan, schwab, has_task, has_check, all_task_text, warn,
}
use min_demo.Compliance.Identity.{has}
use min_demo.Compliance.Search.{mentions, has_task_spans}

-- Lowering of the letters of ASCII.
abbrev ascii_lower : Text → Text
ascii_lower s = map (λ c. if leb b'A' c && leb c b'Z' then c + 32 else c) s

abbrev kyc_call : Task
kyc_call = record { subject = "KYC call"; status = "Completed"; description = "" }

abbrev trusted : Task
trusted = record { subject = "Call trusted"; status = "Completed"; description = "" }

abbrev contact_form : Task
contact_form = record { subject = "contact form"; status = "Not Started"; description = "" }

abbrev own_check : CustomCheck
own_check = record {
  id = "esg";
  label = "ESG preference";
  keyword = "esg";
  regulation = "Firm policy";
  why_it_matters = "The firm asks for it.";
  fail_status = warn;
}

abbrev household : Scan
household = record {
  created_at = some 0;
  now = 86400000;
  contacts = [];
  tasks = kyc_call ∷ trusted ∷ contact_form ∷ [];
  overrides = some (("signatures", []) ∷ []);
  stored_keywords = [];
  account_type = some retirement;
  custom_checks = own_check ∷ [];
  custodian_id = schwab;
}

has_task_spans_example : has_task ascii_lower (trusted ∷ contact_form ∷ []) "trusted contact" ≡ true
has_task_spans_example =
    has_task_spans ascii_lower trusted contact_form [] "trusted contact" (units "call ")
      (units "trusted") (units "contact") (units " form") refl refl refl

-- Neither of the two tasks holds the keyword that is found.
neither_mentions :
    any (mentions ascii_lower (units "trusted contact")) (trusted ∷ contact_form ∷ []) ≡ false
neither_mentions = refl

kyc_found : has ascii_lower household "kyc-profile" ≡ true
unfolding has_check has_task all_task_text lookup
kyc_found = refl
