-- ===== src/Flow/Banks.antt =====
-- The routing numbers of frontend/src/lib/constants.ts, their lookup in
-- frontend/src/app/flow/useFlowState.ts, and the click on a bank of
-- frontend/src/app/flow/FlowScreen.tsx.
use min_demo.Base.{
  ◌≡◌, ◌∙◌, refl, inl, inr, Bool, true, false, ◌&&◌, String, Option, none, some, List, [], ◌∷◌,
  arith, if◌then◌else◌, Bool-cases, str_eq, units, length, leb, ◌==◌,
}
use min_demo.Flow.{
  FlowState, Routing, set_routing_matches, set_show_routing_dd, set_matched_bank, set_bank_last4,
  reducer,
}

abbrev bank : String → String → Routing
bank name full = record { name = name; full = full }

-- `ROUTING_DB`, by the first or all of the last four digits of an account.
abbrev routing_db : List (String × List Routing)
routing_db =
    ("35", bank "TruMark Financial Credit Union" "236083524" ∷ [])
    ∷ ("352", bank "TruMark Financial Credit Union" "236083524" ∷ [])
    ∷ ("3524", bank "TruMark Financial Credit Union" "236083524" ∷ [])
    ∷ (
      "00",
      bank "Bank of America (East)" "011000015" ∷ bank "Bank of America (West)" "026009593" ∷ [],
    )
    ∷ ("0001", bank "Bank of America" "011000015" ∷ [])
    ∷ ("67", bank "Chase Bank" "021000021" ∷ bank "US Bank" "042100678" ∷ [])
    ∷ ("6789", bank "Chase Bank" "021006789" ∷ [])
    ∷ ("22", bank "Wells Fargo" "121042211" ∷ [])
    ∷ ("2211", bank "Wells Fargo" "121042211" ∷ [])
    ∷ ("44", bank "PNC Bank" "043000096" ∷ [])
    ∷ ("4455", bank "PNC Bank" "031207607" ∷ [])
    ∷ ("99", bank "Citizens Bank" "011500120" ∷ [])
    ∷ ("9900", bank "Citizens Bank" "021313103" ∷ [])
    ∷ []

abbrev find_key : String → List (String × List Routing) → List Routing
find_key key [] = []
find_key key ((k, banks) ∷ rest) = if str_eq k key then banks else find_key key rest

-- `ROUTING_DB[key] || []`.
unfoldable pub routing_for : String → List Routing
routing_for key = find_key key routing_db

module _ (lower : String → String) where
  -- The three settings that each branch of the effect dispatches.
  abbrev set_routing : List Routing → Bool → Option String → FlowState → FlowState
  set_routing banks show_dd matched s =
      let listed = reducer lower s (set_routing_matches banks) in
      let shown = reducer lower listed (set_show_routing_dd show_dd) in
      reducer lower shown (set_matched_bank matched)

  -- The banks found, with the four digits known.
  unfoldable pub found : Bool → List Routing → FlowState → FlowState
  unfolding reducer
  found four [] s = set_routing [] false none s
  found four (b ∷ []) s =
      if four
      then reducer lower (set_routing (b ∷ []) true (some b.name) s) (set_show_routing_dd false)
      else set_routing (b ∷ []) true none s
  found four (b ∷ c ∷ banks) s = set_routing (b ∷ c ∷ banks) true none s

  -- The effect on a change of the last four digits.
  unfoldable pub lookup_bank : FlowState → FlowState
  unfolding reducer found
  lookup_bank s =
      let n = length (units s.bank_last4) in
      if leb 2 n then found (n == 4) (routing_for s.bank_last4) s else set_routing [] false none s

-- `s.slice(-4)` of a text in the basic plane.
unfoldable pub last_four : String → String
last_four String.[] = ""
last_four (String.◌∷◌ c s) =
    let rest = last_four s in if leb (length (units s)) 3 then String.◌∷◌ c s else rest

module _ (lower : String → String) where
  -- A click on a bank of the drop-down list, and the effect where it changes the digits.
  unfoldable pub pick_bank : Routing → FlowState → FlowState
  unfolding reducer
  pick_bank b s =
      let matched = reducer lower s (set_matched_bank (some b.name)) in
      let digits = reducer lower matched (set_bank_last4 (last_four b.full)) in
      let hidden = reducer lower digits (set_show_routing_dd false) in
      if str_eq (last_four b.full) s.bank_last4 then hidden else lookup_bank lower hidden

abbrev is_none {ℓ} : {A : Type ℓ} → Option A → Bool
is_none none = true
is_none (some a) = false

-- The name of the one bank that four digits stand for.
abbrev pub only_bank : Bool → List Routing → Option String
only_bank four [] = none
only_bank four (b ∷ []) = if four then some b.name else none
only_bank four (b ∷ c ∷ banks) = none

abbrev pub Settled : List Routing → Bool → FlowState → Type 0
Settled banks four t =
    (t.routing_matches ≡ banks)
    × ((t.matched_bank ≡ only_bank four banks)
        × (t.show_routing_dd ≡ (leb 1 (length banks) && is_none t.matched_bank)))

found-Settled :
    (lower : String → String) (four : Bool) (banks : List Routing) (s : FlowState)
    → Settled banks four (found lower four banks s)
unfolding found reducer
found-Settled lower four [] s = (refl, (refl, refl))
found-Settled lower true (b ∷ []) s = (refl, (refl, refl))
found-Settled lower false (b ∷ []) s = (refl, (refl, refl))
found-Settled lower four (b ∷ c ∷ banks) s = (refl, (refl, ground arith))

-- After the effect on the last digits, the banks listed are those found for two digits or more. A
-- bank is matched where it is the only one found for four digits. The drop-down list shows just
-- where banks are found and none is matched.
pub lookup_bank-Settled :
    (lower : String → String) (s : FlowState)
    → Settled
        (if leb 2 (length (units s.bank_last4)) then routing_for s.bank_last4 else [])
        (length (units s.bank_last4) == 4)
        (lookup_bank lower s)
unfolding lookup_bank reducer
lookup_bank-Settled lower s = elim (Bool-cases (leb 2 (length (units s.bank_last4)))) [
  | inl e ↦
      rw e (found-Settled lower (length (units s.bank_last4) == 4) (routing_for s.bank_last4) s)
  | inr e ↦ rw e (refl, (refl, refl))
]

-- A bank picked from the drop-down list stays matched where the digits it sets are those that were
-- there; else the one bank of `ROUTING_DB` for the four digits takes its place, and where there is
-- none or more than one, no bank is matched.
pub pick_bank_lem :
    (lower : String → String) (b : Routing) (s : FlowState)
    → length (units (last_four b.full)) ≡ 4
    → (pick_bank lower b s).matched_bank ≡ (
        if str_eq (last_four b.full) s.bank_last4
        then some b.name
        else only_bank true (routing_for (last_four b.full)))
unfolding pick_bank reducer
pick_bank_lem lower b s h = elim (Bool-cases (str_eq (last_four b.full) s.bank_last4)) [
  | inl e ↦ rw e refl
  | inr e ↦
      let t = record s {
        matched_bank = some b.name;
        bank_last4 = last_four b.full;
        show_routing_dd = false;
      } in
      rw e ((lookup_bank-Settled lower t).1.0 ∙ rw h refl)
]
