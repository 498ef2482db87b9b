-- ===== src/Flow/Accounts.antt =====
-- "ADD_ACCOUNT" and the other actions on the accounts of frontend/src/app/flow/useFlowState.ts.
use min_demo.Base.{
  ◌≡◌, refl, ap, ◌∙◌, ℕ, true, false, not, ◌||◌, String, none, List, [], ◌∷◌, ◌++◌, arith, filter,
  map, str_eq, str_eq_iff, if◌then◌else◌, Bool-cases, inl, inr,
}
use min_demo.Types.{AccountRequest}
use min_demo.Flow.{
  FlowState, FlowAction, initial_flow, AccountUpdate, add_account, update_account, reset,
  has_account, account_id, toggle_account, reducer, reduce_all, apply_update,
}

-- Every account has an id of its own.
abbrev pub DistinctIds : List AccountRequest → Type 0
DistinctIds [] = Unit
DistinctIds (a ∷ accounts) = (has_account a.id accounts ≡ false) × DistinctIds accounts

has_account-filter :
    (x i : String) (accounts : List AccountRequest)
    → has_account x (filter (λ a. not (str_eq a.id i)) accounts)
      ≡ (if str_eq x i then false else has_account x accounts)
has_account-filter x i [] = ground (arith, str_eq_iff x i)
has_account-filter x i (a ∷ accounts) =
    ground
      (arith, str_eq_iff x i, str_eq_iff a.id i, str_eq_iff a.id x, has_account-filter x i accounts)

has_account-snoc :
    (x : String) (a : AccountRequest) (accounts : List AccountRequest)
    → has_account x (accounts ++ a ∷ []) ≡ (has_account x accounts || str_eq a.id x)
has_account-snoc x a [] = ground arith
has_account-snoc x a (b ∷ accounts) = ground (arith, has_account-snoc x a accounts)

DistinctIds-filter :
    (i : String) (accounts : List AccountRequest)
    → DistinctIds accounts
    → DistinctIds (filter (λ a. not (str_eq a.id i)) accounts)
DistinctIds-filter i [] h = tt
DistinctIds-filter i (a ∷ accounts) h = elim (Bool-cases (str_eq a.id i)) [
  | inl e ↦ rw e (DistinctIds-filter i accounts h.1)
  | inr e ↦
      rw e (has_account-filter a.id i accounts ∙ rw e (h.0), DistinctIds-filter i accounts h.1)
]

DistinctIds-snoc :
    (a : AccountRequest) (accounts : List AccountRequest)
    → has_account a.id accounts ≡ false
    → DistinctIds accounts
    → DistinctIds (accounts ++ a ∷ [])
DistinctIds-snoc a [] k h = (refl, tt)
DistinctIds-snoc a (b ∷ accounts) k h = (
  has_account-snoc b.id a accounts
      ∙ ground (arith, h, k, str_eq_iff a.id b.id, str_eq_iff b.id a.id),
  DistinctIds-snoc a accounts (ground (arith, k)) h.1,
)

filter_absent :
    (i : String) (accounts : List AccountRequest)
    → has_account i accounts ≡ false
    → filter (λ a. not (str_eq a.id i)) accounts ≡ accounts
filter_absent i [] h = refl
filter_absent i (a ∷ accounts) h = elim (Bool-cases (str_eq a.id i)) [
  | inl e ↦ absurd (ground (arith, e, h))
  | inr e ↦ rw e (ap (λ bs. a ∷ bs) (filter_absent i accounts (ground (arith, e, h))))
]

filter-snoc_absent :
    (a : AccountRequest) (accounts : List AccountRequest)
    → has_account a.id accounts ≡ false
    → filter (λ b. not (str_eq b.id a.id)) (accounts ++ a ∷ []) ≡ accounts
filter-snoc_absent a [] h = elim (Bool-cases (str_eq a.id a.id)) [
  | inl e ↦ rw e refl
  | inr e ↦ absurd (ground (arith, e, str_eq_iff a.id a.id))
]
filter-snoc_absent a (b ∷ accounts) h = elim (Bool-cases (str_eq b.id a.id)) [
  | inl e ↦ absurd (ground (arith, e, h))
  | inr e ↦ rw e (ap (λ bs. b ∷ bs) (filter-snoc_absent a accounts (ground (arith, e, h))))
]

toggle_account-DistinctIds :
    (lower : String → String) (owner acct_type : String) (signers : ℕ)
    (accounts : List AccountRequest)
    → DistinctIds accounts
    → DistinctIds (toggle_account lower owner acct_type signers accounts)
unfolding toggle_account
toggle_account-DistinctIds lower owner acct_type signers accounts h =
    elim (Bool-cases (has_account (account_id lower owner acct_type) accounts)) [
      | inl e ↦ rw e (DistinctIds-filter (account_id lower owner acct_type) accounts h)
      | inr e ↦ rw e (DistinctIds-snoc _ accounts e h)
    ]

-- An update that names no new id keeps the ids, in their order.
has_account-update :
    (x i : String) (u : AccountUpdate) (accounts : List AccountRequest)
    → u.id ≡ none
    → has_account x (map (λ a. if str_eq a.id i then apply_update u a else a) accounts)
      ≡ has_account x accounts
has_account-update x i u [] k = refl
has_account-update x i u (a ∷ accounts) k = elim (Bool-cases (str_eq a.id i)) [
  | inl e ↦ rw (e, k, has_account-update x i u accounts k) refl
  | inr e ↦ rw (e, has_account-update x i u accounts k) refl
]

DistinctIds-update :
    (i : String) (u : AccountUpdate) (accounts : List AccountRequest)
    → u.id ≡ none
    → DistinctIds accounts
    → DistinctIds (map (λ a. if str_eq a.id i then apply_update u a else a) accounts)
DistinctIds-update i u [] k h = tt
DistinctIds-update i u (a ∷ accounts) k h = elim (Bool-cases (str_eq a.id i)) [
  | inl e ↦
      rw (e, k)
        (has_account-update a.id i u accounts k ∙ h.0, DistinctIds-update i u accounts k h.1)
  | inr e ↦
      rw e (has_account-update a.id i u accounts k ∙ h.0, DistinctIds-update i u accounts k h.1)
]

-- The action is not an update that names a new id; the screens dispatch none.
abbrev pub KeepsIds : FlowAction → Type 0
KeepsIds (update_account i u) = u.id ≡ none
KeepsIds _ = Unit

reducer-DistinctIds :
    (lower : String → String) (s : FlowState) (act : FlowAction)
    → KeepsIds act
    → DistinctIds s.accounts
    → DistinctIds (reducer lower s act).accounts
unfolding reducer
reducer-DistinctIds lower s (add_account owner acct_type signers) k h =
    toggle_account-DistinctIds lower owner acct_type signers s.accounts h
reducer-DistinctIds lower s (update_account i u) k h = DistinctIds-update i u s.accounts k h
reducer-DistinctIds lower s reset k h = tt
reducer-DistinctIds lower s _ k h = h

abbrev pub AllKeepIds : List FlowAction → Type 0
AllKeepIds [] = Unit
AllKeepIds (act ∷ acts) = KeepsIds act × AllKeepIds acts

reduce_all-DistinctIds :
    (lower : String → String) (acts : List FlowAction) (s : FlowState)
    → AllKeepIds acts
    → DistinctIds s.accounts
    → DistinctIds (reduce_all lower s acts).accounts
unfolding reduce_all
reduce_all-DistinctIds lower [] s k h = h
reduce_all-DistinctIds lower (act ∷ acts) s k h =
    reduce_all-DistinctIds lower acts (reducer lower s act) k.1
      (reducer-DistinctIds lower s act k.0 h)

-- From the initial state, whatever actions follow, so long as no update renames an account, no
-- two accounts of the flow have the same id.
pub accounts-DistinctIds :
    (lower : String → String) (acts : List FlowAction)
    → AllKeepIds acts
    → DistinctIds (reduce_all lower initial_flow acts).accounts
accounts-DistinctIds lower acts k = reduce_all-DistinctIds lower acts initial_flow k tt

str_eq_refl : (t : String) → str_eq t t ≡ true
str_eq_refl t = ground (arith, str_eq_iff t t)

toggle_account_twice :
    (lower : String → String) (owner acct_type : String) (signers : ℕ)
    (accounts : List AccountRequest)
    → has_account (account_id lower owner acct_type) accounts ≡ false
    → toggle_account lower owner acct_type signers
        (toggle_account lower owner acct_type signers accounts)
      ≡ accounts
unfolding toggle_account
toggle_account_twice lower owner acct_type signers accounts h =
    let id = account_id lower owner acct_type in
    rw (h, has_account-snoc id _ accounts, h, str_eq_refl id) (filter-snoc_absent _ accounts h)

-- Adding an account that the flow does not have, and adding it once more, restores the state.
pub add_account_twice :
    (lower : String → String) (s : FlowState) (owner acct_type : String) (signers : ℕ)
    → has_account (account_id lower owner acct_type) s.accounts ≡ false
    → reducer lower
        (reducer lower s (add_account owner acct_type signers))
        (add_account owner acct_type signers)
      ≡ s
unfolding reducer
add_account_twice lower s owner acct_type signers h =
    ap (λ bs. record s { accounts = bs })
      (toggle_account_twice lower owner acct_type signers s.accounts h)
