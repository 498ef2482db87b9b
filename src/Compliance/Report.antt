-- ===== src/Compliance/Report.antt =====
-- What holds of the report that `runComplianceChecks` of frontend/src/lib/compliance-engine.ts
-- gives.
use min_demo.Base.{◌≡◌, none, List, [], ◌∷◌, Text, ◌⊎◌, if◌then◌else◌, ◌<>◌, ◌||◌}
use min_demo.Compliance.{warn, CheckResult, CustomCheck, Scan, lookup, has_task}
use min_demo.Compliance.Templates.{remediation_templates}
use min_demo.Compliance.Identity.{has}
use min_demo.Compliance.Run.{is_pass, custom_check}

-- A check that goes by its keywords passes exactly when one of them is found; the annual review
-- alone does not, and is never passed.
abbrev pub Verdict : (Text → Text) → Scan → CheckResult → Type 0
Verdict lower scan c =
    (is_pass c.status ≡ has lower scan c.id) ⊎ ((c.id ≡ "annual-review") × (c.status ≡ warn))

-- Before remediation a check has its verdict and no steps.
abbrev Bare : (Text → Text) → Scan → CheckResult → Type 0
Bare lower scan c = Verdict lower scan c × (c.remediation ≡ none)

module _ (lower : Text → Text) (scan : Scan) where
  -- The steps that a check of the report carries: those for its id, unless it passed.
  abbrev pub HasSteps : CheckResult → Type 0
  HasSteps c =
      c.remediation ≡ (if is_pass c.status then none else lookup c.id remediation_templates)

  -- A check of the report that is not the firm's own.
  abbrev pub Judged : CheckResult → Type 0
  Judged c = Verdict lower scan c × HasSteps c

  -- The result of a check of the firm's own: it passes exactly when its keyword is found, or where
  -- the firm's settings make "pass" its status otherwise.
  abbrev pub JudgedOwn : CustomCheck → CheckResult → Type 0
  JudgedOwn c r =
      (r.id ≡ "custom-" <> c.id)
      × (is_pass r.status ≡ (has_task lower scan.tasks c.keyword || is_pass c.fail_status))
      × HasSteps r

  -- One result for each check of the firm's own, in their order.
  abbrev pub EachJudged : List CustomCheck → List CheckResult → Type 0
  EachJudged [] [] = Unit
  EachJudged [] (r ∷ rs) = ⊥
  EachJudged (c ∷ cs) [] = ⊥
  EachJudged (c ∷ cs) (r ∷ rs) = JudgedOwn c r × EachJudged cs rs

  abbrev own : CustomCheck → CheckResult
  own c = custom_check (has_task lower scan.tasks c.keyword) c
