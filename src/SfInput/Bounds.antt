-- ===== src/SfInput/Bounds.antt =====
-- The limits of the reading actions and of the lists of accounts and ids,
-- frontend/src/lib/sf-validation.ts.
use min_demo.Base.{
  ap, refl, suc, ℕ, ◌+◌, ◌≤◌, ◌≡◌, some, List, [], ◌∷◌, Text, length, ltb, arith, All, Bool-cases,
  inl, inr, subst,
}
use min_demo.SfClient.Ids.{str, is_valid_salesforce_id}
use min_demo.SfInput.Json.{Json, text, Number, whole, below, infinite}
use min_demo.SfInput.Inputs.{
  SearchHouseholdsInput, QueryTasksInput, CreateFinancialAccountsInput, QueryFinancialAccountsInput,
  FinancialAccount,
}
use min_demo.SfInput.Checks.{optional_array}
use min_demo.SfInput.Reads.{
  clamp, or_number, search_households, query_tasks, financial_account, financial_accounts_from,
  some_accounts, create_financial_accounts, id_at, ids_from, or_missing, query_financial_accounts,
}
use min_demo.SfInput.Contracts.{
  Ensures, ensured, refused, ensures_bind, after, IsId, IsIdOrNone, IsText, with_id,
  with_id_or_none, with_text,
}
use min_demo.SfInput.ListContracts.{optional_array-length}

clamp_low : (n : Number) (low high : ℕ) → low ≤ high → low ≤ clamp n low high
clamp_low (whole n) low high h = ground arith
clamp_low (below n) low high h = ground arith
clamp_low infinite low high h = h

clamp_high : (n : Number) (low high : ℕ) → clamp n low high ≤ high
clamp_high (whole n) low high = ground arith
clamp_high (below n) low high = ground arith
clamp_high infinite low high = omega arith

pub record IsPage (low most : ℕ) (limit offset : ℕ) : Type 0 where
  pub limit_low : low ≤ limit
  pub limit_high : limit ≤ most
  pub offset_high : offset ≤ 2000

page : (l o : Number) (most : ℕ) → 1 ≤ most → IsPage 1 most (clamp l 1 most) (clamp o 0 2000)
page l o most h = record {
  limit_low = clamp_low l 1 most h;
  limit_high = clamp_high l 1 most;
  offset_high = clamp_high o 0 2000;
}

pub record IsSearch (x : SearchHouseholdsInput) : Type 0 where
  pub query : IsText 100 x.query
  pub page : IsPage 1 50 x.limit x.offset

search_households-Ensures : (j : Json) → Ensures IsSearch (search_households j)
unfolding search_households
search_households-Ensures j = after _ _ (λ d. after _ _ (λ l. after _ _ (λ o.
    with_text d "query" 100 _ (λ q p.
      ensured _
        record { query = p; page = page (or_number l 10) (or_number o 0) 50 (omega arith) }))))

query_tasks-Ensures :
    (j : Json) → Ensures (λ (x : QueryTasksInput). IsPage 1 500 x.limit x.offset) (query_tasks j)
unfolding query_tasks
query_tasks-Ensures j = after _ _ (λ d.
    after _ _
      (λ l. after _ _ (λ o. ensured _ (page (or_number l 200) (or_number o 0) 500 (omega arith)))))

pub record IsFinancialAccount (x : FinancialAccount) : Type 0 where
  pub acct_type : IsText 100 x.acct_type
  pub owner : IsText 200 x.owner

ruleset account_rules = (with_id, with_id_or_none, with_text, after, ensured)

financial_account-Ensures : (i : ℕ) (j : Json) → Ensures IsFinancialAccount (financial_account i j)
unfolding financial_account
financial_account-Ensures i j = search account_rules depth 20

accounts-Ensures :
    (i : ℕ) (xs : List Json)
    → Ensures
        (λ (ys : List FinancialAccount). All IsFinancialAccount ys)
        (financial_accounts_from i xs)
unfolding financial_accounts_from
accounts-Ensures i [] = ensured [] tt
accounts-Ensures i (x ∷ xs) =
    ensures_bind (financial_account i x) _ (financial_account-Ensures i x) (λ y p.
      ensures_bind (financial_accounts_from (i + 1) xs) _ (accounts-Ensures (i + 1) xs)
        (λ ys q. ensured (y ∷ ys) (p, q)))

pub record IsAccounts (xs : List FinancialAccount) : Type 0 where
  pub each : All IsFinancialAccount xs
  pub some_account : 1 ≤ length xs
  pub at_most : length xs ≤ 20

some_accounts-Ensures :
    (xs : List FinancialAccount) → All IsFinancialAccount xs → Ensures IsAccounts (some_accounts xs)
some_accounts-Ensures [] h = refused _
some_accounts-Ensures (x ∷ xs) h = elim (Bool-cases (ltb 20 (length (x ∷ xs)))) [
  | inl e ↦ rw e (refused _)
  | inr e ↦
      rw e
        (ensured (x ∷ xs) record { each = h; some_account = omega arith; at_most = ground arith })
]

pub record IsCreateAccounts (x : CreateFinancialAccountsInput) : Type 0 where
  pub household_id : IsId x.household_id
  pub primary_contact_id : IsIdOrNone x.primary_contact_id
  pub accounts : IsAccounts x.accounts

create_financial_accounts-Ensures :
    (j : Json) → Ensures IsCreateAccounts (create_financial_accounts j)
unfolding create_financial_accounts
create_financial_accounts-Ensures j = after _ _ (λ d. with_id d "householdId" _ (λ h p.
    with_id_or_none d "primaryContactId" _ (λ c q. after _ _ (λ raw.
      ensures_bind (financial_accounts_from 0 raw) _ (accounts-Ensures 0 raw) (λ all ha.
        ensures_bind (some_accounts all) _ (some_accounts-Ensures all ha) (λ xs hx.
          ensured _ record { household_id = p; primary_contact_id = q; accounts = hx }))))))

id_at-IsId : (i : ℕ) (j : Json) → Ensures IsId (id_at i j)
id_at-IsId i (text s) = elim (Bool-cases (is_valid_salesforce_id (str s))) [
  | inl e ↦ rw e (ensured s record { at = e })
  | inr e ↦ rw e (refused _)
]
id_at-IsId i _ = refused _

ids-Ensures :
    (i : ℕ) (xs : List Json)
    → Ensures (λ (ys : List Text). All IsId ys × (length ys ≡ length xs)) (ids_from i xs)
unfolding ids_from
ids-Ensures i [] = ensured [] (tt, refl)
ids-Ensures i (x ∷ xs) = ensures_bind (id_at i x) _ (id_at-IsId i x) (λ y p.
    ensures_bind (ids_from (i + 1) xs) _ (ids-Ensures (i + 1) xs)
      (λ ys q. ensured (y ∷ ys) ((p, q.0), ap suc q.1)))

-- Ids are listed only if there is one; there are at most 100, and each of them is valid.
abbrev AreIds : List Text → Type 0
AreIds ids = All IsId ids × (1 ≤ length ids) × (length ids ≤ 100)

pub record IsIds (x : QueryFinancialAccountsInput) : Type 0 where
  pub each : (ids : List Text) → x.household_ids ≡ some ids → AreIds ids

listed :
    (ys : List Text)
    → All IsId ys
    → length ys ≤ 100
    → (ids : List Text) → or_missing ys ≡ some ids
    → AreIds ids
listed [] h most ids e = absurd (cc)
listed (y ∷ ys) h most ids e =
    let same : y ∷ ys ≡ ids = cc in subst AreIds same (h, omega arith, most)

query_financial_accounts-Ensures : (j : Json) → Ensures IsIds (query_financial_accounts j)
unfolding query_financial_accounts
query_financial_accounts-Ensures j = after _ _ (λ d.
    ensures_bind (optional_array d "householdIds" 100) _
      (optional_array-length d "householdIds" 100)
      (λ raw most.
        ensures_bind (ids_from 0 raw) _ (ids-Ensures 0 raw)
          (λ ys h. ensured _ record { each = listed ys h.0 (omega (arith, h.1)) })))

-- The contracts of the actions that read and of the financial accounts.
pub record ChecksReads (j : Json) : Type 0 where
  pub search_ok : Ensures IsSearch (search_households j)
  pub tasks_ok : Ensures (λ (x : QueryTasksInput). IsPage 1 500 x.limit x.offset) (query_tasks j)
  pub accounts_ok : Ensures IsCreateAccounts (create_financial_accounts j)
  pub ids_ok : Ensures IsIds (query_financial_accounts j)

-- Whatever value a request carries, a page that is read has from 1 to 50 households, or from 1 to
-- 500 tasks, and begins at 2000 at most; the financial accounts to create are from 1 to 20, of a
-- household with a valid id, with a type and an owner within their limits; and the households
-- whose accounts are read are named by at most 100 valid ids, if any are named.
pub reads_checked : (j : Json) → ChecksReads j
reads_checked j = record {
  search_ok = search_households-Ensures j;
  tasks_ok = query_tasks-Ensures j;
  accounts_ok = create_financial_accounts-Ensures j;
  ids_ok = query_financial_accounts-Ensures j;
}
