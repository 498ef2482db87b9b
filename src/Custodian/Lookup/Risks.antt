-- ===== src/Custodian/Lookup/Risks.antt =====
-- `getNIGORisks` and `getPreventedNIGORisks` of frontend/src/lib/custodian-rules.ts.
use min_demo.Base.{
  ℕ, zero, suc, ◌≡◌, refl, sym, ◌∙◌, ◌≤◌, ◌↔◌, String, Bool, true, false, ◌&&◌, ◌==◌, List, [], ◌∷◌,
  All, All-weaken, filter, arith, Option-cases, inl, inr, sort_by, InOrder, with_key,
  sort_by-InOrder, with_key-sort_by, sort_by_unique, Holds, Holds-filter,
}
use min_demo.Custodian.Rules.{NigoRisk, Frequency, most_common, common, occasional}
use min_demo.Custodian.Lookup.{
  frequency_order, risks_of, get_nigo_risks, CompletedFields, is_prevented,
  get_prevented_nigo_risks, get_rules_for_account_type,
}

abbrev pub rank : NigoRisk → ℕ
rank k = frequency_order k.frequency

get_nigo_risks-sort : (id t : String) → get_nigo_risks id t ≡ sort_by rank (risks_of id t)
unfolding get_nigo_risks sort_by
get_nigo_risks-sort id t = elim (Option-cases (get_rules_for_account_type id t)) [
  | inl e ↦ rw (e, get_nigo_risks, risks_of) refl
  | inr (r, e) ↦ rw (e, get_nigo_risks, risks_of) refl
]

-- The first is at least as common as the second, told apart from the code's order.
abbrev pub as_common : Frequency → Frequency → Bool
as_common most_common g = true
as_common common most_common = false
as_common common common = true
as_common common occasional = true
as_common occasional most_common = false
as_common occasional common = false
as_common occasional occasional = true

abbrev pub same_frequency : Frequency → Frequency → Bool
same_frequency f g = as_common f g && as_common g f

-- Each risk is at least as common as all that follow it.
abbrev pub MostCommonFirst : List NigoRisk → Type 0
MostCommonFirst [] = Unit
MostCommonFirst (x ∷ xs) =
    All (λ (y : NigoRisk). as_common x.frequency y.frequency ≡ true) xs × MostCommonFirst xs

-- The risks of one frequency, in their order.
abbrev pub with_frequency : Frequency → List NigoRisk → List NigoRisk
with_frequency f xs = filter (λ (x : NigoRisk). same_frequency x.frequency f) xs

by_order : (f g : Frequency) → (frequency_order f ≤ frequency_order g) ↔ (as_common f g ≡ true)
by_order most_common most_common = (λ h. refl, λ h. omega arith)
by_order most_common common = (λ h. refl, λ h. omega arith)
by_order most_common occasional = (λ h. refl, λ h. omega arith)
by_order common most_common = (λ h. absurd (omega arith), λ h. absurd (cc))
by_order common common = (λ h. refl, λ h. omega arith)
by_order common occasional = (λ h. refl, λ h. omega arith)
by_order occasional most_common = (λ h. absurd (omega arith), λ h. absurd (cc))
by_order occasional common = (λ h. absurd (omega arith), λ h. absurd (cc))
by_order occasional occasional = (λ h. refl, λ h. omega arith)

InOrder-iff : (xs : List NigoRisk) → InOrder rank xs ↔ MostCommonFirst xs
InOrder-iff [] = (λ h. tt, λ h. tt)
InOrder-iff (x ∷ xs) = (
  λ h. (
    All-weaken xs (λ (y : NigoRisk) le. (by_order x.frequency y.frequency).0 le) h.0,
    (InOrder-iff xs).0 h.1,
  ),
  λ h. (
    All-weaken xs (λ (y : NigoRisk) c. (by_order x.frequency y.frequency).1 c) h.0,
    (InOrder-iff xs).1 h.1,
  ),
)

same_rank : (f g : Frequency) → (frequency_order f == frequency_order g) ≡ same_frequency f g
same_rank most_common most_common = refl
same_rank most_common common = refl
same_rank most_common occasional = refl
same_rank common most_common = refl
same_rank common common = refl
same_rank common occasional = refl
same_rank occasional most_common = refl
same_rank occasional common = refl
same_rank occasional occasional = refl

keyed :
    (f : Frequency) (xs : List NigoRisk)
    → with_key rank (frequency_order f) xs ≡ with_frequency f xs
keyed f [] = refl
keyed f (x ∷ xs) = rw (same_rank x.frequency f, keyed f xs) refl

-- No risk has a higher rank.
unranked : (k : ℕ) (f : Frequency) → (frequency_order f == suc (suc (suc k))) ≡ false
unranked k most_common = ground arith
unranked k common = ground arith
unranked k occasional = ground arith

unkeyed : (k : ℕ) (xs : List NigoRisk) → with_key rank (suc (suc (suc k))) xs ≡ []
unkeyed k [] = refl
unkeyed k (x ∷ xs) = rw (unranked k x.frequency) (unkeyed k xs)

-- Lists with the same risks of each frequency have the same of each rank.
each_rank :
    (xs ys : List NigoRisk)
    → ((f : Frequency) → with_frequency f ys ≡ with_frequency f xs)
    → (k : ℕ) → with_key rank k ys ≡ with_key rank k xs
each_rank xs ys h zero = keyed most_common ys ∙ (h most_common ∙ sym (keyed most_common xs))
each_rank xs ys h (suc zero) = keyed common ys ∙ (h common ∙ sym (keyed common xs))
each_rank xs ys h (suc (suc zero)) =
    keyed occasional ys ∙ (h occasional ∙ sym (keyed occasional xs))
each_rank xs ys h (suc (suc (suc k))) = unkeyed k ys ∙ sym (unkeyed k xs)

-- The risks of an account type come with the most common ones first, then the common ones, then
-- the occasional ones, and those of one frequency come in the order of the rules; no other list
-- does: any list that is in this order and has the risks of each frequency as the rules have them
-- is the one returned.
pub get_nigo_risks-InOrder :
    (id t : String)
    → MostCommonFirst (get_nigo_risks id t)
      × ((f : Frequency)
          → with_frequency f (get_nigo_risks id t) ≡ with_frequency f (risks_of id t))
      × ((ys : List NigoRisk)
          → MostCommonFirst ys
          → ((f : Frequency) → with_frequency f ys ≡ with_frequency f (risks_of id t))
          → ys ≡ get_nigo_risks id t)
get_nigo_risks-InOrder id t =
    let rules = risks_of id t in
    rw (get_nigo_risks-sort id t) (
      (InOrder-iff (sort_by rank rules)).0 (sort_by-InOrder rank rules),
      λ f.
          sym (keyed f (sort_by rank rules))
          ∙ (with_key-sort_by rank (frequency_order f) rules ∙ keyed f rules),
      λ ys h same. sort_by_unique rank rules ys ((InOrder-iff ys).1 h) (each_rank rules ys same),
    )

-- At least as much has been collected.
abbrev pub Covers : CompletedFields → CompletedFields → Type 0
Covers more done =
    (done.has_beneficiary ≡ true → more.has_beneficiary ≡ true)
    × (done.signer_count ≤ more.signer_count)
    × (done.income_verified ≡ true → more.income_verified ≡ true)
    × (done.has_rollover_rec ≡ true → more.has_rollover_rec ≡ true)

module _ (lower : String → String) (done more : CompletedFields) (h : Covers more done) where
  is_prevented-Covers :
      (k : NigoRisk) → is_prevented lower done k ≡ true → is_prevented lower more k ≡ true
  unfolding is_prevented
  is_prevented-Covers k e = ground (arith, h.0, h.1, h.2, h.3)

  -- Collecting more never takes back a risk that was prevented: each risk that is prevented with
  -- what was collected is prevented with more.
  pub prevented-Covers :
      (id t : String)
      → Holds (get_prevented_nigo_risks lower more id t) (get_prevented_nigo_risks lower done id t)
  unfolding get_prevented_nigo_risks
  prevented-Covers id t = elim (Option-cases (get_rules_for_account_type id t)) [
    | inl e ↦ rw (e, get_prevented_nigo_risks) tt
    | inr (r, e) ↦
        rw (e, get_prevented_nigo_risks)
          (Holds-filter (is_prevented lower more) (is_prevented lower done) is_prevented-Covers
            r.nigo_risks)
  ]
