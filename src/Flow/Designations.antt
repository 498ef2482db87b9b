-- ===== src/Flow/Designations.antt =====
-- Whom the beneficiaries filled in by frontend/src/app/flow/useFlowState.ts name.
use Prim.Native.String.append
use Prim.Native.String.compare
use min_demo.Base.{
  ◌≡◌, ◌≢◌, refl, str_eq_iff, ◌⊎◌, inl, inr, true, false, not, String, List, [], ◌∷◌, ◌++◌, ◌∙◌,
  map, map-append, arith, Bool-cases, str_eq, ◌<>◌, truthy, filter, All, All-append,
}
use min_demo.Types.{beneficiaries, ClientInfo, AccountRequest, Beneficiary, primary}
use min_demo.Flow.{FlowState}
use min_demo.Flow.Beneficiaries.{
  full_name, is_survivorship, designate, spouse_of, trusted_contact, contact_relationship,
  designations, designate_all, populate,
}

-- Someone can be named: the spouse, or the trusted contact.
abbrev pub CanDesignate : FlowState → Type 0
CanDesignate s =
    (s.has_p2 ≡ true) × ((truthy (full_name s.p1) ≡ true) × (truthy (full_name s.p2) ≡ true))
    ⊎ (s.has_p2 ≡ false)
      × ((truthy s.p1.trusted_contact_name ≡ true) × (truthy s.p1.trusted_contact_last_name ≡ true))

abbrev pub account_ids : List Beneficiary → List String
account_ids bs = map (λ (b : Beneficiary). b.account_id) bs

abbrev pub needing : List AccountRequest → List String
needing accounts =
    map (λ (a : AccountRequest). a.id) (filter (λ a. not (is_survivorship a)) accounts)

account_ids-designations :
    (s : FlowState) (acc : AccountRequest)
    → CanDesignate s
    → account_ids (designations s acc) ≡ needing (acc ∷ [])
unfolding designations spouse_of
account_ids-designations s acc h = ground arith

abbrev pub FullPrimary : Beneficiary → Type 0
FullPrimary b = (b.percentage ≡ 100) × ((b.bene_type ≡ primary) × (truthy b.name ≡ true))

-- A text with a text that is not empty in front is not empty.
truthy-append : (t u : String) → truthy t ≡ true → truthy (t <> u) ≡ true
truthy-append String.[] u h = absurd (ground (arith, h))
truthy-append (String.◌∷◌ c t) u h = rw (append.cons c t u, compare.cons-nil c (t <> u)) refl

truthy-trusted_contact :
    (client : ClientInfo)
    → truthy client.trusted_contact_name ≡ true
    → truthy (trusted_contact client) ≡ true
truthy-trusted_contact client h =
    truthy-append client.trusted_contact_name (" " <> client.trusted_contact_last_name) h

truthy-spouse_of :
    (s : FlowState) (owner : String)
    → truthy (full_name s.p1) ≡ true
    → truthy (full_name s.p2) ≡ true
    → truthy (spouse_of s owner) ≡ true
unfolding spouse_of
truthy-spouse_of s owner h k = elim (Bool-cases (str_eq owner (full_name s.p2))) [
  | inl e ↦ rw e h
  | inr e ↦ rw e k
]

All-designate :
    (id name relationship : String)
    → truthy name ≡ true
    → All FullPrimary (designate id name relationship)
All-designate id name relationship h = ((refl, (refl, h)), tt)

designations-FullPrimary :
    (s : FlowState) (acc : AccountRequest) → CanDesignate s → All FullPrimary (designations s acc)
unfolding designations spouse_of
designations-FullPrimary s acc (inl (two, (one_named, two_named))) =
    elim (Bool-cases (is_survivorship acc)) [
      | inl e ↦ rw e tt
      | inr e ↦
          rw (e, two, truthy-spouse_of s acc.owner one_named two_named)
            (All-designate acc.id (spouse_of s acc.owner) "Spouse"
              (truthy-spouse_of s acc.owner one_named two_named))
    ]
designations-FullPrimary s acc (inr (one, (first, last))) =
    elim (Bool-cases (is_survivorship acc)) [
      | inl e ↦ rw e tt
      | inr e ↦
          rw (e, one, first, last)
            (All-designate acc.id (trusted_contact s.p1) (contact_relationship s.p1)
              (truthy-trusted_contact s.p1 first))
    ]

needing-cons :
    (acc : AccountRequest) (accs : List AccountRequest)
    → needing (acc ∷ []) ++ needing accs ≡ needing (acc ∷ accs)
needing-cons acc accs = elim (Bool-cases (is_survivorship acc)) [
  | inl e ↦ rw e refl
  | inr e ↦ rw e refl
]

account_ids-designate_all :
    (s : FlowState) (accs : List AccountRequest)
    → CanDesignate s
    → account_ids (designate_all s accs) ≡ needing accs
unfolding designate_all
account_ids-designate_all s [] h = refl
account_ids-designate_all s (acc ∷ accs) h =
    map-append (λ (b : Beneficiary). b.account_id) (designations s acc) (designate_all s accs)
    ∙ rw (account_ids-designations s acc h, account_ids-designate_all s accs h)
        (needing-cons acc accs)

designate_all-FullPrimary :
    (s : FlowState) (accs : List AccountRequest)
    → CanDesignate s
    → All FullPrimary (designate_all s accs)
unfolding designate_all
designate_all-FullPrimary s [] h = tt
designate_all-FullPrimary s (acc ∷ accs) h =
    All-append FullPrimary (designations s acc) (designate_all s accs)
      (designations-FullPrimary s acc h) (designate_all-FullPrimary s accs h)

-- The spouse of the one who has the account: the first client where that is the second, and the
-- second client otherwise.
abbrev pub IsSpouse : FlowState → String → String → Type 0
IsSpouse s owner name =
    ((owner ≡ full_name s.p2) × (name ≡ full_name s.p1))
    ⊎ ((owner ≢ full_name s.p2) × (name ≡ full_name s.p2))

-- The beneficiary of an account: the spouse in a couple, and else the trusted contact.
abbrev pub IsFor : FlowState → AccountRequest → Beneficiary → Type 0
IsFor s acc b =
    ((s.has_p2 ≡ true) × IsSpouse s acc.owner b.name × (b.relationship ≡ "Spouse"))
    ⊎ ((s.has_p2 ≡ false)
        × (b.name ≡ s.p1.trusted_contact_name <> (" " <> s.p1.trusted_contact_last_name))
        × (b.relationship ≡ contact_relationship s.p1))

-- One beneficiary for each account, in order.
abbrev pub EachFor : FlowState → List AccountRequest → List Beneficiary → Type 0
EachFor s [] [] = Unit
EachFor s [] (b ∷ bs) = ⊥
EachFor s (acc ∷ accs) [] = ⊥
EachFor s (acc ∷ accs) (b ∷ bs) = IsFor s acc b × EachFor s accs bs

abbrev pub without_survivor : List AccountRequest → List AccountRequest
without_survivor accounts = filter (λ acc. not (is_survivorship acc)) accounts

spouse_of-IsSpouse : (s : FlowState) (owner : String) → IsSpouse s owner (spouse_of s owner)
unfolding spouse_of
spouse_of-IsSpouse s owner = elim (Bool-cases (str_eq owner (full_name s.p2))) [
  | inl e ↦ inl ((str_eq_iff owner (full_name s.p2)).0 e, rw e refl)
  | inr e ↦ inr (λ same. ground (arith, e, same, str_eq_iff owner (full_name s.p2)), rw e refl)
]

-- The beneficiaries of one account, survivorship apart.
designations-EachFor :
    (s : FlowState) (acc : AccountRequest)
    → is_survivorship acc ≡ false
    → CanDesignate s
    → (b : Beneficiary) × (designations s acc ≡ b ∷ []) × IsFor s acc b
unfolding designations spouse_of
designations-EachFor s acc e (inl (two, (one_named, two_named))) = (
  record {
    account_id = acc.id;
    name = spouse_of s acc.owner;
    relationship = "Spouse";
    percentage = 100;
    bene_type = primary;
  },
  rw (e, two, truthy-spouse_of s acc.owner one_named two_named) refl,
  inl (two, spouse_of-IsSpouse s acc.owner, refl),
)
designations-EachFor s acc e (inr (one, (first, last))) = (
  record {
    account_id = acc.id;
    name = trusted_contact s.p1;
    relationship = contact_relationship s.p1;
    percentage = 100;
    bene_type = primary;
  },
  rw (e, one, first, last) refl,
  inr (one, refl, refl),
)

designations-none :
    (s : FlowState) (acc : AccountRequest) → is_survivorship acc ≡ true → designations s acc ≡ []
unfolding designations
designations-none s acc e = rw e refl

designate_all-EachFor :
    (s : FlowState) (accs : List AccountRequest)
    → CanDesignate s
    → EachFor s (without_survivor accs) (designate_all s accs)
unfolding designate_all
designate_all-EachFor s [] h = tt
designate_all-EachFor s (acc ∷ accs) h = elim (Bool-cases (is_survivorship acc)) [
  | inl e ↦ rw (designations-none s acc e, e) (designate_all-EachFor s accs h)
  | inr e ↦
      let (b, one, for_it) = designations-EachFor s acc e h in
      rw (one, e) (for_it, designate_all-EachFor s accs h)
]

populate_fresh :
    (lower : String → String) (s : FlowState)
    → s.step ≡ beneficiaries
    → s.beneficiaries ≡ []
    → (populate lower s).beneficiaries ≡ designate_all s s.accounts
unfolding populate
populate_fresh lower s h k = ground arith

-- On entering the step with no beneficiaries, where both clients of a couple have a name or a
-- single client has named a trusted contact: the accounts with a beneficiary are those without
-- survivorship, one beneficiary for each in the order of the accounts, namely the other client of a
-- couple (the second where the first has the account or neither is its owner by name) or the trusted
-- contact; and every beneficiary has a name that is not empty and is primary for 100 percent.
pub populate_designates :
    (lower : String → String) (s : FlowState)
    → s.step ≡ beneficiaries
    → s.beneficiaries ≡ []
    → CanDesignate s
    → (account_ids (populate lower s).beneficiaries ≡ needing s.accounts)
      × EachFor s (without_survivor s.accounts) (populate lower s).beneficiaries
      × All FullPrimary (populate lower s).beneficiaries
populate_designates lower s h k can = rw (populate_fresh lower s h k) (
  account_ids-designate_all s s.accounts can,
  designate_all-EachFor s s.accounts can,
  designate_all-FullPrimary s s.accounts can,
)
