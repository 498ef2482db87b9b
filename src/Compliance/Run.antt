-- ===== src/Compliance/Run.antt =====
-- `runComplianceChecks` of frontend/src/lib/compliance-engine.ts: the built-in checks, the firm's
-- own checks, and the remediation steps.
use min_demo.Base.{
  String, Bool, true, false, none, some, List, ◌++◌, map, Text, if◌then◌else◌, get_or_else, ◌<>◌,
}
use min_demo.Compliance.{
  unknown, firm, Status, pass, CheckResult, CustomCheck, Scan, has_task, lookup,
}
use min_demo.Compliance.Templates.{remediation_templates}
use min_demo.Compliance.Builtin.{builtin_checks}
use min_demo.Compliance.ByType.{type_checks}

-- `"${keyword}" found in household records`, with the quotes.
abbrev pub quoted : String → String
quoted s = "\"" <> (s <> "\"")

unfoldable pub custom_check : Bool → CustomCheck → CheckResult
custom_check found cc' = record {
  id = "custom-" <> cc'.id;
  category = firm;
  label = cc'.label;
  regulation = cc'.regulation;
  status = if found then pass else cc'.fail_status;
  detail =
      if found
      then quoted cc'.keyword <> " found in household records"
      else "No record matching " <> (quoted cc'.keyword <> " — required by firm policy");
  evidence = none;
  why_it_matters = cc'.why_it_matters;
  remediation = none;
}

abbrev pub is_pass : Status → Bool
is_pass pass = true
is_pass _ = false

-- The templates of a check that did not pass are attached to it, if there are any for its id.
unfoldable pub attach_remediation : CheckResult → CheckResult
attach_remediation c = if is_pass c.status then c else elim (lookup c.id remediation_templates) [
  | none ↦ c
  | some steps ↦ record c { remediation = some steps }
]

module _ (lower : Text → Text) (scan : Scan) where
  unfoldable pub checks_before_remediation : List CheckResult
  checks_before_remediation =
      builtin_checks lower scan
      ++ (type_checks lower scan (get_or_else scan.account_type unknown)
          ++ map (λ c. custom_check (has_task lower scan.tasks c.keyword) c) scan.custom_checks)

  unfoldable pub run_compliance_checks : List CheckResult
  run_compliance_checks = map attach_remediation checks_before_remediation
