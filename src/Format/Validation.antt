-- ===== src/Format/Validation.antt =====
-- `isClientValid` against `missingFields` of frontend/src/lib/format.ts.
use min_demo.Base.{ℕ, ◌≡◌, String, Bool, true, false, ◌&&◌, Option, List, [], arith, ◌↔◌}
use min_demo.Types.{ClientInfo}
use min_demo.Format.{is_client_valid, missing_fields, ask}

-- The conjunction up to a field against the questions up to it.
ask_last : (t : Bool) (label : String) → (t ≡ true) ↔ (ask t label [] ≡ [])
ask_last true label = ground arith
ask_last false label = ground arith

ask_one :
    (t b : Bool) (label : String) (rest : List String)
    → (b ≡ true) ↔ (rest ≡ [])
    → ((t && b) ≡ true) ↔ (ask t label rest ≡ [])
ask_one true b label rest ih = ih
ask_one false b label rest ih = (λ h. absurd (cc), λ h. absurd (cc))

ask_two :
    (t u b : Bool) (label : String) (rest : List String)
    → (b ≡ true) ↔ (rest ≡ [])
    → ((t && (u && b)) ≡ true) ↔ (ask (t && u) label rest ≡ [])
ask_two true true b label rest ih = ih
ask_two true false b label rest ih = (λ h. absurd (cc), λ h. absurd (cc))
ask_two false u b label rest ih = (λ h. absurd (cc), λ h. absurd (cc))

module _ (time_of : String → Option ℕ) (now : ℕ) (c : ClientInfo) where
  -- A client is valid exactly when no missing field is reported, whatever the client, the clock
  -- and the reading of dates are.
  pub is_client_valid_iff :
      (is_client_valid time_of now c ≡ true) ↔ (missing_fields time_of now c ≡ [])
  unfolding is_client_valid missing_fields
  is_client_valid_iff = search (ask_one, ask_two, ask_last) depth 30
