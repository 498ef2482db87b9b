-- ===== src/Custodian/Lookup/Income.antt =====
-- `checkIncomeEligibility` of frontend/src/lib/custodian-rules.ts.
use min_demo.Base.{
  ℕ, ◌≡◌, refl, sym, List, ◌⊎◌, str_eq, str_eq_iff, Bool-cases, String, not, ◌&&◌, Option, none,
  some, arith, All, leb, Option-cases, inl, inr, subst,
}
use min_demo.Custodian.Rules.{AccountTypeRules, IncomeEligibility}
use min_demo.Custodian.Schwab.{schwab_rules}
use min_demo.Custodian.Fidelity.{fidelity_rules}
use min_demo.Custodian.Pershing.{pershing_rules}
use min_demo.Custodian.Lookup.{
  FilingStatus, single, joint, Eligibility, eligibility, check_income_eligibility,
  get_rules_for_account_type, rules_registry, find_rules,
}
use min_demo.Custodian.Lookup.Registry.{found-All, registry_round_trip}

-- The Roth limits, told apart from the tables.
abbrev pub roth_limit : FilingStatus → ℕ
roth_limit single = 161000
roth_limit joint = 240000

abbrev pub roth_start : FilingStatus → ℕ
roth_start single = 146000
roth_start joint = 230000

-- A rule with an income limit is a Roth IRA's, with these limits.
abbrev Limits : Option IncomeEligibility → String → Type 0
Limits none t = Unit
Limits (some ie) t =
    (t ≡ "Roth IRA")
    × (ie.max_magi_single ≡ 161000)
    × (ie.max_magi_joint ≡ 240000)
    × (ie.phase_out_start_single ≡ 146000)
    × (ie.phase_out_start_joint ≡ 230000)

abbrev HasLimits : AccountTypeRules → Type 0
HasLimits r = Limits r.income_eligibility r.account_type

schwab-HasLimits : All HasLimits schwab_rules
schwab-HasLimits = search

fidelity-HasLimits : All HasLimits fidelity_rules
fidelity-HasLimits = search

pershing-HasLimits : All HasLimits pershing_rules
pershing-HasLimits = search

-- What an income check says of a Roth IRA.
pub record IsRothCheck (income : ℕ) (filing : FilingStatus) (t : String) (e : Eligibility)
    : Type 0 where
  pub roth : t ≡ "Roth IRA"
  pub eligible : e.eligible ≡ leb income (roth_limit filing)
  pub over_limit : e.over_limit ≡ not (leb income (roth_limit filing))
  pub in_phase_out :
      e.in_phase_out ≡ (leb (roth_start filing) income && leb income (roth_limit filing))

judged :
    (o : Option IncomeEligibility) (t : String) (income : ℕ) (filing : FilingStatus)
    (e : Eligibility)
    → Limits o t
    → elim o [ none ↦ none | some ie ↦ some (eligibility ie income filing) ] ≡ some e
    → IsRothCheck income filing t e
unfolding eligibility
judged none t income filing e h q = absurd (cc)
judged (some ie) t income single e h q = record {
  roth = h.0;
  eligible = ground arith;
  over_limit = ground arith;
  in_phase_out = ground arith;
}
judged (some ie) t income joint e h q = record {
  roth = h.0;
  eligible = ground arith;
  over_limit = ground arith;
  in_phase_out = ground arith;
}

abbrev pub IsCustodian : String → Type 0
IsCustodian id = (id ≡ "schwab") ⊎ ((id ≡ "fidelity") ⊎ (id ≡ "pershing"))

given-IsRothCheck :
    (id t : String) (income : ℕ) (filing : FilingStatus) (e : Eligibility)
    → check_income_eligibility id t income filing ≡ some e
    → IsRothCheck income filing t e
unfolding check_income_eligibility
given-IsRothCheck id t income filing e h = elim (Option-cases (get_rules_for_account_type id t)) [
  | inl q ↦ absurd (let z : none ≡ some e = rw (q, check_income_eligibility) at h in cc)
  | inr (r, q) ↦
      let same : r.account_type ≡ t = (registry_round_trip id).1 t r q in
      subst (λ s. IsRothCheck income filing s e) same
        (judged r.income_eligibility r.account_type income filing e
          (found-All HasLimits id t r schwab-HasLimits fidelity-HasLimits pershing-HasLimits q)
          (rw (q, check_income_eligibility) at h))
]

-- The custodian's rules for a Roth IRA have limits.
abbrev Checks : ℕ → FilingStatus → String → Type 0
Checks income filing id =
    (e : Eligibility) × (check_income_eligibility id "Roth IRA" income filing ≡ some e)

roth_checked :
    (id : String) (income : ℕ) (filing : FilingStatus) → IsCustodian id → Checks income filing id
unfolding check_income_eligibility get_rules_for_account_type rules_registry find_rules
roth_checked id income filing (inl h) = subst (Checks income filing) (sym h) (_, refl)
roth_checked id income filing (inr (inl h)) = subst (Checks income filing) (sym h) (_, refl)
roth_checked id income filing (inr (inr h)) = subst (Checks income filing) (sym h) (_, refl)

known-IsCustodian :
    (id : String) (rules : List AccountTypeRules) → rules_registry id ≡ some rules → IsCustodian id
unfolding rules_registry
known-IsCustodian id rules h = elim (Bool-cases (str_eq id "schwab")) [
  | inl a ↦ inl ((str_eq_iff id "schwab").0 a)
  | inr a ↦ elim (Bool-cases (str_eq id "fidelity")) [
    | inl b ↦ inr (inl ((str_eq_iff id "fidelity").0 b))
    | inr b ↦ elim (Bool-cases (str_eq id "pershing")) [
      | inl c ↦ inr (inr ((str_eq_iff id "pershing").0 c))
      | inr c ↦ absurd (let z : none ≡ some rules = rw (a, b, c) at h in cc)
    ]
  ]
]

found-IsCustodian :
    (id t : String) (income : ℕ) (filing : FilingStatus) (e : Eligibility)
    → check_income_eligibility id t income filing ≡ some e
    → IsCustodian id
unfolding check_income_eligibility get_rules_for_account_type
found-IsCustodian id t income filing e h = elim (Option-cases (rules_registry id)) [
  | inl q ↦ absurd (
      let z : none ≡ some e = rw (q, check_income_eligibility, get_rules_for_account_type) at h in
      cc)
  | inr (rules, q) ↦ known-IsCustodian id rules q
]

-- The check of a Roth IRA at one of the three custodians, or none.
abbrev pub IsIncomeCheck : String → String → ℕ → FilingStatus → Type 0
IsIncomeCheck id t income filing =
    (IsCustodian id
      × (e : Eligibility) × (check_income_eligibility id t income filing ≡ some e)
      × IsRothCheck income filing t e)
    ⊎ ((¬ (IsCustodian id × (t ≡ "Roth IRA")))
        × (check_income_eligibility id t income filing ≡ none))

-- At Schwab, Fidelity and Pershing the income for a Roth IRA is checked, and nothing else is, there
-- or elsewhere: the client is eligible up to 161,000 (240,000 filing jointly), over the limit above
-- it, and in the phase-out from 146,000 (230,000) up to the limit.
pub check_income_eligibility_lem :
    (id t : String) (income : ℕ) (filing : FilingStatus) → IsIncomeCheck id t income filing
check_income_eligibility_lem id t income filing =
    elim (Option-cases (check_income_eligibility id t income filing)) [
      | inl q ↦ inr (
        λ (at, roth).
            let (e, found) = roth_checked id income filing at in
            let missing : check_income_eligibility id "Roth IRA" income filing ≡ none =
              subst (λ s. check_income_eligibility id s income filing ≡ none) roth q in
            absurd (cc),
        q,
      )
      | inr (e, q) ↦
          inl (
            found-IsCustodian id t income filing e q,
            e,
            q,
            given-IsRothCheck id t income filing e q,
          )
    ]
