-- ===== src/Custodian/Pershing.antt =====
-- `PERSHING_RULES` of frontend/src/lib/custodian-rules.ts.
mod Brokerage
mod Retirement
use min_demo.Base.{List, [], ◌∷◌}
use min_demo.Custodian.Rules.{AccountTypeRules}
use min_demo.Custodian.Pershing.Brokerage.{individual_brokerage, jtwros, joint_tic, trust}
use min_demo.Custodian.Pershing.Retirement.{traditional_ira, roth_ira, rollover_ira, sep_ira}

abbrev pub pershing_rules : List AccountTypeRules
pershing_rules =
    individual_brokerage ∷ jtwros ∷ joint_tic ∷ traditional_ira ∷ roth_ira ∷ rollover_ira ∷ sep_ira
    ∷ trust ∷ []
