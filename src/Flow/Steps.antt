-- ===== src/Flow/Steps.antt =====
-- The steps of frontend/src/app/flow/useFlowState.ts: `goBack`, `nextP1`, `nextP2`, `nextJoint`
-- and `nextFund`.
use Prim.Native.Nat.{zero, suc}
use min_demo.Base.{
  ℕ, ◌+◌, ◌-◌, ◌≤◌, ◌≡◌, refl, ap, ◌∙◌, Bool, true, false, Option, none, some, arith, length, ltb,
  if◌then◌else◌,
}
use min_demo.Types.{
  FlowStep, context, client_type, search_existing, enter_client_p1, enter_client_p2,
  select_accounts_p1, select_accounts_p2, select_accounts_joint, funding, moneylink, beneficiaries,
  review, generating, complete,
}
use min_demo.Flow.{FlowState}

-- The table of `goBack`: the step before, where there is one.
unfoldable pub previous : FlowStep → Bool → Bool → Option FlowStep
previous client_type has_p2 has_joint = some context
previous search_existing has_p2 has_joint = some client_type
previous enter_client_p1 has_p2 has_joint = some client_type
previous enter_client_p2 has_p2 has_joint = some enter_client_p1
previous select_accounts_p1 has_p2 has_joint =
    some (if has_p2 then enter_client_p2 else enter_client_p1)
previous select_accounts_p2 has_p2 has_joint = some select_accounts_p1
previous select_accounts_joint has_p2 has_joint =
    some (if has_p2 then select_accounts_p2 else select_accounts_p1)
previous funding has_p2 has_joint = some (
    if has_joint
    then select_accounts_joint
    else (if has_p2 then select_accounts_p2 else select_accounts_p1))
previous moneylink has_p2 has_joint = some funding
previous beneficiaries has_p2 has_joint = some moneylink
previous review has_p2 has_joint = some beneficiaries
previous _ has_p2 has_joint = none

abbrev goto : Option FlowStep → FlowState → FlowState
goto none s = s
goto (some step) s = record s { step = step }

unfoldable pub go_back : FlowState → FlowState
unfolding previous
go_back s = goto (previous s.step s.has_p2 s.has_joint) s

abbrev start_funding : FlowState → FlowState
start_funding s = record s { fund_idx = 0; step = funding }

unfoldable pub next_p1 : FlowState → FlowState
next_p1 s =
    if s.has_p2
    then record s { step = select_accounts_p2 }
    else if s.has_joint
    then record s { step = select_accounts_joint }
    else start_funding s

unfoldable pub next_p2 : FlowState → FlowState
next_p2 s = if s.has_joint then record s { step = select_accounts_joint } else start_funding s

unfoldable pub next_joint : FlowState → FlowState
next_joint s = start_funding s

-- `length - 1` is -1 for no account, and no index is below it; here it is 0, with the same effect.
unfoldable pub next_fund : FlowState → FlowState
next_fund s =
    if ltb s.fund_idx (length s.accounts - 1)
    then record s { fund_idx = s.fund_idx + 1 }
    else record s { step = moneylink }

pub iterate {ℓ} : {A : Type ℓ} → ℕ → (A → A) → A → A
iterate zero f a = a
iterate (suc n) f a = iterate n f (f a)

-- How many steps back the context is, at most.
abbrev depth : FlowStep → ℕ
depth context = 0
depth client_type = 1
depth search_existing = 2
depth enter_client_p1 = 2
depth enter_client_p2 = 3
depth select_accounts_p1 = 4
depth select_accounts_p2 = 5
depth select_accounts_joint = 6
depth funding = 7
depth moneylink = 8
depth beneficiaries = 9
depth review = 10
depth generating = 0
depth complete = 0

abbrev pub can_leave : FlowStep → Bool
can_leave generating = false
can_leave complete = false
can_leave _ = true

-- Going back gets nearer to the context, and stops there.
go_back_nearer :
    (s : FlowState)
    → can_leave s.step ≡ true
    → (can_leave (go_back s).step ≡ true) × (depth (go_back s).step ≤ depth s.step - 1)
unfolding go_back
go_back_nearer s h = ground arith

depth-eq-zero : (t : FlowStep) → can_leave t ≡ true → depth t ≡ 0 → t ≡ context
depth-eq-zero t h k = ground arith

back_to_context_from :
    (n : ℕ) (s : FlowState)
    → can_leave s.step ≡ true
    → depth s.step ≤ n
    → (iterate n go_back s).step ≡ context
unfolding iterate
back_to_context_from zero s h k = depth-eq-zero s.step h (omega arith)
back_to_context_from (suc n) s h k =
    let (still, nearer) = go_back_nearer s h in
    back_to_context_from n (go_back s) still (omega arith)

depth_bound : (t : FlowStep) → depth t ≤ 10
depth_bound t = ground arith

-- From any step but the last two, whatever the flags, going back ten times leads to the first
-- step.
pub back_to_context :
    (s : FlowState) → can_leave s.step ≡ true → (iterate 10 go_back s).step ≡ context
back_to_context s h = back_to_context_from 10 s h (depth_bound s.step)

-- The account steps fit the flags: the second client's only with a second client, the joint one
-- only with joint accounts.
abbrev pub fits : FlowStep → Bool → Bool → Bool
fits select_accounts_p1 has_p2 has_joint = true
fits select_accounts_p2 has_p2 has_joint = has_p2
fits select_accounts_joint has_p2 has_joint = has_joint
fits _ has_p2 has_joint = false

-- The button of an account step.
abbrev pub next_from : FlowStep → FlowState → FlowState
next_from select_accounts_p1 s = next_p1 s
next_from select_accounts_p2 s = next_p2 s
next_from select_accounts_joint s = next_joint s
next_from _ s = s

-- From an account step that fits the flags, going on and then back returns to that step.
pub go_back-next :
    (s : FlowState)
    → fits s.step s.has_p2 s.has_joint ≡ true
    → (go_back (next_from s.step s)).step ≡ s.step
unfolding go_back next_p1 next_p2 next_joint
go_back-next s h = ground arith

-- While there is a later account, the funding step goes on to it and changes nothing else.
next_fund_step :
    (s : FlowState)
    → s.fund_idx + 1 ≤ length s.accounts - 1
    → next_fund s ≡ record s { fund_idx = s.fund_idx + 1 }
unfolding next_fund
next_fund_step s h = ground arith

next_fund_from :
    (k : ℕ) (s : FlowState)
    → s.fund_idx + k ≤ length s.accounts - 1
    → iterate k next_fund s ≡ record s { fund_idx = s.fund_idx + k }
unfolding iterate
next_fund_from zero s h = ap (λ n. record s { fund_idx = n }) (omega arith)
next_fund_from (suc k) s h =
    ap (iterate k next_fund) (next_fund_step s (omega arith))
    ∙ (next_fund_from k (record s { fund_idx = s.fund_idx + 1 }) (omega arith)
        ∙ ap (λ n. record s { fund_idx = n }) (omega arith))

next_fund_last :
    (s : FlowState) → length s.accounts - 1 ≤ s.fund_idx → (next_fund s).step ≡ moneylink
unfolding next_fund
next_fund_last s h = ground arith

iterate_after {ℓ} :
    {A : Type ℓ} (n : ℕ) (f : A → A) (a : A) → iterate (suc n) f a ≡ f (iterate n f a)
unfolding iterate
iterate_after zero f a = refl
iterate_after (suc n) f a = iterate_after n f (f a)

next_fund_nth :
    (s : FlowState) (k : ℕ)
    → s.fund_idx ≡ 0
    → k ≤ length s.accounts - 1
    → iterate k next_fund s ≡ record s { fund_idx = k }
next_fund_nth s k h le =
    next_fund_from k s (omega arith) ∙ ap (λ n. record s { fund_idx = n }) (omega arith)

-- From the first account of the funding step, k presses of the button, k below the number of
-- accounts or zero, show the account at k and change nothing else; one press more than the last
-- index leads to the money link. Without accounts the first press does.
pub next_fund_visits :
    (s : FlowState) (k : ℕ)
    → s.fund_idx ≡ 0
    → k ≤ length s.accounts - 1
    → (iterate k next_fund s ≡ record s { fund_idx = k })
      × ((iterate (suc (length s.accounts - 1)) next_fund s).step ≡ moneylink)
next_fund_visits s k h le = (
  next_fund_nth s k h le,
  rw
      (
        iterate_after (length s.accounts - 1) next_fund s,
        next_fund_nth s (length s.accounts - 1) h (omega arith),
      )
      (next_fund_last (record s { fund_idx = length s.accounts - 1 }) (omega arith)),
)
