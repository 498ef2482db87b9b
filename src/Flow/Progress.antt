-- ===== src/Flow/Progress.antt =====
-- The progress bar of frontend/src/app/flow/useFlowState.ts, `progressPct`.
use Prim.Native.Nat.{min, ◌/◌}
use min_demo.Base.{
  ℕ, ◌+◌, ◌*◌, ◌≡◌, refl, length, ◌==◌, List, [], ◌∷◌, if◌then◌else◌, ◌||◌, Bool-cases, inl, inr,
}
use min_demo.Types.{
  FlowStep, context, client_type, search_existing, enter_client_p1, enter_client_p2,
  select_accounts_p1, select_accounts_p2, select_accounts_joint, funding, moneylink, beneficiaries,
  review, generating, complete,
}
use min_demo.Flow.{FlowState}
use min_demo.Flow.Steps.{next_p1}

-- `FLOW_STEPS_ORDER` of frontend/src/lib/constants.ts.
abbrev flow_steps_order : List FlowStep
flow_steps_order =
    context ∷ client_type ∷ enter_client_p1 ∷ select_accounts_p1 ∷ funding ∷ moneylink
    ∷ beneficiaries ∷ review ∷ generating ∷ complete ∷ []

-- A number for each step, to compare them by.
abbrev step_code : FlowStep → ℕ
step_code context = 0
step_code client_type = 1
step_code search_existing = 2
step_code enter_client_p1 = 3
step_code enter_client_p2 = 4
step_code select_accounts_p1 = 5
step_code select_accounts_p2 = 6
step_code select_accounts_joint = 7
step_code funding = 8
step_code moneylink = 9
step_code beneficiaries = 10
step_code review = 11
step_code generating = 12
step_code complete = 13

-- `indexOf(step) + 1`, 0 for a step that is not there.
abbrev place : FlowStep → List FlowStep → ℕ
place step [] = 0
place step (t ∷ steps) =
    let rest = place step steps in
    if step_code t == step_code step then 1 else if rest == 0 then 0 else rest + 1

-- `progressPct`.
unfoldable pub progress_pct : FlowStep → ℕ
progress_pct step = min 100 (place step flow_steps_order * 100 / length flow_steps_order)

-- Going on from the first client's accounts, at 40 percent, shows 50 percent where the funding step
-- follows; with a second client or joint accounts it shows 0.
pub progress_pct-next_p1 :
    (s : FlowState)
    → (progress_pct select_accounts_p1 ≡ 40)
      × (progress_pct (next_p1 s).step ≡ (if s.has_p2 || s.has_joint then 0 else 50))
unfolding progress_pct next_p1
progress_pct-next_p1 s = (
  refl,
  (elim (Bool-cases s.has_p2) [
    | inl e ↦ rw e refl
    | inr e ↦ elim (Bool-cases s.has_joint) [ inl f ↦ rw (e, f) refl | inr f ↦ rw (e, f) refl ]
  ]),
)
