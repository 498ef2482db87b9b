-- ===== src/Flow/Intents.antt =====
-- "TOGGLE_INTENT" of frontend/src/app/flow/useFlowState.ts.
use min_demo.Base.{
  ◌≡◌, ◌∙◌, false, not, ◌||◌, String, List, [], ◌∷◌, ◌++◌, arith, filter, str_eq, str_eq_iff,
  if◌then◌else◌, Bool-cases, inl, inr,
}
use min_demo.Flow.{FlowState, toggle_intent, toggle, reducer, member}

member-filter :
    (x i : String) (xs : List String)
    → member x (filter (λ y. not (str_eq y i)) xs) ≡ (if str_eq x i then false else member x xs)
member-filter x i [] = ground (arith, str_eq_iff x i)
member-filter x i (y ∷ xs) =
    ground (arith, str_eq_iff x i, str_eq_iff y i, str_eq_iff x y, member-filter x i xs)

member-snoc :
    (x i : String) (xs : List String) → member x (xs ++ i ∷ []) ≡ (member x xs || str_eq x i)
member-snoc x i [] = ground arith
member-snoc x i (y ∷ xs) = ground (arith, member-snoc x i xs)

-- Toggling an intent turns its membership over and leaves that of every other intent alone,
-- whatever is selected.
pub member-toggle_intent :
    (lower : String → String) (s : FlowState) (x i : String)
    → member x (reducer lower s (toggle_intent i)).selected_intents
      ≡ (if str_eq x i then not (member i s.selected_intents) else member x s.selected_intents)
unfolding reducer toggle
member-toggle_intent lower s x i = elim (Bool-cases (member i s.selected_intents)) [
  | inl e ↦ rw e (member-filter x i s.selected_intents)
  | inr e ↦ rw e (member-snoc x i s.selected_intents ∙ ground (arith, str_eq_iff x i, e))
]
