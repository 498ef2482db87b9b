-- ===== src/Custodian/Lookup/Registry.antt =====
-- The registry of frontend/src/lib/custodian-rules.ts: what a lookup finds.
use min_demo.Base.{
  ◌≡◌, refl, sym, ◌∙◌, inl, inr, String, some, List, [], ◌∷◌, arith, All, str_eq, str_eq_iff,
  Bool-cases, Option-cases, subst,
}
use min_demo.Custodian.Rules.{AccountTypeRules}
use min_demo.Custodian.Schwab.{schwab_rules}
use min_demo.Custodian.Fidelity.{fidelity_rules}
use min_demo.Custodian.Pershing.{pershing_rules}
use min_demo.Custodian.Lookup.{
  rules_registry, find_rules, get_rules_for_account_type, get_account_types_list,
}

module _ {ℓ} (P : AccountTypeRules → Type ℓ) where
  find_rules-All :
      (rs : List AccountTypeRules) (t : String) (r : AccountTypeRules)
      → All P rs
      → find_rules rs t ≡ some r
      → P r
  unfolding find_rules
  find_rules-All [] t r h e = absurd (cc)
  find_rules-All (q ∷ rs) t r h e = elim (Bool-cases (str_eq q.account_type t)) [
    | inl m ↦ let same : q ≡ r = ground (arith, m) in subst P same (h.0)
    | inr m ↦ find_rules-All rs t r h.1 (rw m at e)
  ]

pub get_rules-find :
    (id t : String) → get_rules_for_account_type id t ≡ find_rules (get_account_types_list id) t
unfolding get_rules_for_account_type get_account_types_list find_rules
get_rules-find id t = elim (Option-cases (rules_registry id)) [
  | inl e ↦ rw (e, get_rules_for_account_type) refl
  | inr (rs, e) ↦ rw (e, get_rules_for_account_type) refl
]

-- What holds of the rules of the three tables at their custodian holds of any custodian's rules,
-- none included.
by_custodian {ℓ} :
    (A : String → AccountTypeRules → Type ℓ) (id : String)
    → All (A "schwab") schwab_rules
    → All (A "fidelity") fidelity_rules
    → All (A "pershing") pershing_rules
    → All (A id) (get_account_types_list id)
unfolding get_account_types_list rules_registry
by_custodian A id hs hf hp = elim (Bool-cases (str_eq id "schwab")) [
  | inl a ↦ rw a (subst (λ x. All (A x) schwab_rules) (sym ((str_eq_iff id "schwab").0 a)) hs)
  | inr a ↦ elim (Bool-cases (str_eq id "fidelity")) [
    | inl b ↦
        rw (a, b) (subst (λ x. All (A x) fidelity_rules) (sym ((str_eq_iff id "fidelity").0 b)) hf)
    | inr b ↦ elim (Bool-cases (str_eq id "pershing")) [
      | inl c ↦
          rw (a, b, c)
            (subst (λ x. All (A x) pershing_rules) (sym ((str_eq_iff id "pershing").0 c)) hp)
      | inr c ↦ rw (a, b, c) tt
    ]
  ]
]

module _ {ℓ} (P : AccountTypeRules → Type ℓ) where
  -- So it holds of what a lookup finds.
  pub found-All :
      (id t : String) (r : AccountTypeRules)
      → All P schwab_rules
      → All P fidelity_rules
      → All P pershing_rules
      → get_rules_for_account_type id t ≡ some r
      → P r
  found-All id t r hs hf hp e =
      find_rules-All P (get_account_types_list id) t r (by_custodian (λ i. P) id hs hf hp)
        (sym (get_rules-find id t) ∙ e)

pub find_rules-type :
    (rs : List AccountTypeRules) (t : String) (r : AccountTypeRules)
    → find_rules rs t ≡ some r
    → r.account_type ≡ t
unfolding find_rules
find_rules-type [] t r e = absurd (cc)
find_rules-type (q ∷ rs) t r e = elim (Bool-cases (str_eq q.account_type t)) [
  | inl m ↦ ground (arith, m, str_eq_iff q.account_type t)
  | inr m ↦ find_rules-type rs t r (rw m at e)
]

-- A rule, looked up by its own account type at the custodian, is found itself.
abbrev pub IsFiled : String → AccountTypeRules → Type 0
IsFiled id r = (get_rules_for_account_type id r.account_type ≡ some r) × (r.custodian_id ≡ id)

schwab-IsFiled : All (IsFiled "schwab") schwab_rules
unfolding get_rules_for_account_type rules_registry find_rules
schwab-IsFiled = search

fidelity-IsFiled : All (IsFiled "fidelity") fidelity_rules
unfolding get_rules_for_account_type rules_registry find_rules
fidelity-IsFiled = search

pershing-IsFiled : All (IsFiled "pershing") pershing_rules
unfolding get_rules_for_account_type rules_registry find_rules
pershing-IsFiled = search

-- At every custodian, each listed account type, looked up by its name, gives the very rules that
-- are listed, and they carry that custodian's identifier; and what a lookup gives has the account
-- type that was asked for.
pub registry_round_trip :
    (id : String)
    → All (IsFiled id) (get_account_types_list id)
      × ((t : String) (r : AccountTypeRules)
          → get_rules_for_account_type id t ≡ some r
          → r.account_type ≡ t)
registry_round_trip id = (
  by_custodian IsFiled id schwab-IsFiled fidelity-IsFiled pershing-IsFiled,
  λ t r e. find_rules-type (get_account_types_list id) t r (sym (get_rules-find id t) ∙ e),
)
