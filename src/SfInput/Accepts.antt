-- ===== src/SfInput/Accepts.antt =====
-- An input that `recordMoneyLink` of frontend/src/lib/sf-validation.ts does accept.
use min_demo.Base.{ℕ, ◌≤◌, ◌≡◌, ◌≢◌, refl, String, false, [], ◌∷◌, Text, length, ltb, arith}
use min_demo.SfInput.Json.{text, object, null?, trim_text}
use min_demo.SfInput.Checks.{valid, ◌>>=◌, Fields, require_string, require_sf_id, as_record}
use min_demo.SfInput.Records.{record_money_link}
use min_demo.SfInput.Contracts.{IsId}

null-true : (s : Text) → s ≢ [] → null? s ≡ false
null-true [] h = absurd (h refl)
null-true (c ∷ s) h = refl

-- A field with a text that is not blank and not too long.
pub record Fits (d : Fields) (field : String) (n : ℕ) (s : Text) : Type 0 where
  pub holds : d field ≡ text s
  pub visible : trim_text s ≢ []
  pub bounded : length s ≤ n

pub require_string_accepts :
    (d : Fields) (field : String) (n : ℕ) (s : Text)
    → Fits d field n s
    → require_string d field n ≡ valid (trim_text s)
unfolding require_string
require_string_accepts d field n s h =
    let short : ltb n (length s) ≡ false = ground (arith, h.bounded) in
    rw (h.holds, require_string) (rw (null-true (trim_text s) h.visible, short) refl)

pub require_sf_id_accepts :
    (d : Fields) (field : String) (s : Text)
    → d field ≡ text s
    → IsId s
    → require_sf_id d field ≡ valid s
unfolding require_sf_id
require_sf_id_accepts d field s e h = rw (e, require_sf_id) (rw (h.at) refl)

-- An object with a valid household id and with texts that are not blank, of at most 500 units for
-- the bank and four for each group of digits, is accepted, and the texts arrive trimmed.
pub record_money_link_accepts :
    (d : Fields) (id bank digits routing : Text)
    → d "householdId" ≡ text id
    → IsId id
    → Fits d "bankName" 500 bank
    → Fits d "lastFour" 4 digits
    → Fits d "routingLastFour" 4 routing
    → record_money_link (object d)
      ≡ valid record {
        household_id = id;
        bank_name = trim_text bank;
        last_four = trim_text digits;
        routing_last_four = trim_text routing;
      }
unfolding record_money_link ◌>>=◌ as_record
record_money_link_accepts d id bank digits routing e h hb hd hr =
    rw
      (
        require_sf_id_accepts d "householdId" id e h,
        require_string_accepts d "bankName" 500 bank hb,
        require_string_accepts d "lastFour" 4 digits hd,
        require_string_accepts d "routingLastFour" 4 routing hr,
      )
      refl
