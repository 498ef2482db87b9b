-- ===== src/Compliance/Overrides.antt =====
-- The firm's keyword overrides, and the two places of frontend/src/lib/compliance-engine.ts that
-- make the PTE check.
use min_demo.Base.{
  ℕ, ◌+◌, ◌≡◌, refl, ap, ◌∙◌, Bool, true, false, String, Option, none, some, List, [], ◌∷◌, ◌++◌,
  arith, Text, any, Bool-cases, inl, inr, str_eq, if◌then◌else◌, get_or_else, ltb, ◌||◌,
}
use min_demo.Compliance.{
  AccountType, individual, trust, entity, retirement, joint, unknown, CheckResult, Scan, KeywordMap,
  keywords, lookup, effective_keyword_map, has_task, has_check,
}
use min_demo.Compliance.Templates.{default_keyword_map}
use min_demo.Compliance.Builtin.{
  builtin_checks, annual_review, annual_review_due, days_since_creation,
}
use min_demo.Compliance.Identity.{has, has_rollover}
use min_demo.Compliance.ByType.{type_checks}

lookup-append {ℓ} :
    {V : Type ℓ} (k : String) (xs ys : List (String × V)) (d : V)
    → get_or_else (lookup k (xs ++ ys)) d ≡ get_or_else (lookup k xs) (get_or_else (lookup k ys) d)
unfolding lookup
lookup-append k [] ys d = refl
lookup-append k ((j, v) ∷ xs) ys d = elim (Bool-cases (str_eq j k)) [
  | inl e ↦ rw e
  | inr e ↦ rw e (lookup-append k xs ys d)
]

-- A check goes by the keywords of the firm's overrides where they name it, be they none at all, and
-- by the default keywords where they do not.
pub has-override :
    (lower : Text → Text) (scan : Scan) (overrides : KeywordMap) (id : String)
    → scan.overrides ≡ some overrides
    → has lower scan id
      ≡ any
          (has_task lower scan.tasks)
          (get_or_else (lookup id overrides) (keywords default_keyword_map id))
unfolding has_check
has-override lower scan overrides id e =
    ap
      (λ (o : Option KeywordMap).
        any (has_task lower scan.tasks)
          (keywords (effective_keyword_map default_keyword_map o scan.stored_keywords) id))
      e
    ∙ ap (any (has_task lower scan.tasks)) (lookup-append id overrides default_keyword_map [])

-- How many checks of a report have an id.
pub count_id : String → List CheckResult → ℕ
count_id id [] = 0
count_id id (c ∷ cs) = (if str_eq c.id id then 1 else 0) + count_id id cs

count_id-append :
    (id : String) (xs ys : List CheckResult)
    → count_id id (xs ++ ys) ≡ count_id id xs + count_id id ys
unfolding count_id
count_id-append id [] ys = omega arith
count_id-append id (x ∷ xs) ys = omega (arith, count_id-append id xs ys)

abbrev is_retirement : AccountType → Bool
is_retirement retirement = true
is_retirement _ = false

module _ (lower : Text → Text) (scan : Scan) where
  abbrev pte : String
  pte = "pte-compliance"

  count_annual : (o : Option ℕ) → count_id pte (annual_review_due lower scan o) ≡ 0
  unfolding count_id annual_review_due annual_review
  count_annual none = refl
  count_annual (some days) = elim (Bool-cases (ltb 365 days)) [ inl e ↦ rw e | inr e ↦ rw e ]

  count_builtin :
      count_id pte (builtin_checks lower scan) ≡ (if has_rollover lower scan then 1 else 0)
  unfolding count_id builtin_checks
  count_builtin = elim (Bool-cases (has_rollover lower scan)) [
    | inl e ↦ elim (Bool-cases (has lower scan "ach-authorization")) [
      | inl f ↦ rw e (rw f (rw (count_annual (days_since_creation lower scan))))
      | inr f ↦ rw e (rw f (rw (count_annual (days_since_creation lower scan))))
    ]
    | inr e ↦ elim (Bool-cases (has lower scan "ach-authorization")) [
      | inl f ↦ rw e (rw f (rw (count_annual (days_since_creation lower scan))))
      | inr f ↦ rw e (rw f (rw (count_annual (days_since_creation lower scan))))
    ]
  ]

  count_type :
      (t : AccountType)
      → count_id pte (type_checks lower scan t)
        ≡ (if is_retirement t then (if has_rollover lower scan then 0 else 1) else 0)
  unfolding count_id type_checks
  count_type trust = refl
  count_type entity = refl
  count_type retirement = elim (Bool-cases (has_rollover lower scan)) [
    | inl e ↦ rw e
    | inr e ↦ rw e
  ]
  count_type individual = refl
  count_type joint = refl
  count_type unknown = refl

  -- The PTE check stands once among the built-in checks of a household with a rollover or of a
  -- retirement account, both included, and otherwise not at all.
  pub pte_once :
      (t : AccountType)
      → count_id pte (builtin_checks lower scan ++ type_checks lower scan t)
        ≡ (if has_rollover lower scan || is_retirement t then 1 else 0)
  pte_once t =
      count_id-append pte (builtin_checks lower scan) (type_checks lower scan t)
      ∙ rw (count_builtin, count_type t) (by_cases (has_rollover lower scan) (is_retirement t))
    where
      by_cases :
          (a b : Bool)
          → (if a then 1 else 0) + (if b then (if a then 0 else 1) else 0)
            ≡ (if a || b then 1 else 0)
      by_cases true true = refl
      by_cases true false = refl
      by_cases false true = refl
      by_cases false false = refl
