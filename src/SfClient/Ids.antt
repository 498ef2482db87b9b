-- ===== src/SfClient/Ids.antt =====
-- `isValidSalesforceId` and `requireSalesforceId` of frontend/src/lib/sf-client.ts. The pattern
-- `/^[a-zA-Z0-9]{15}([a-zA-Z0-9]{3})?$/` is matched left to right.
use min_demo.Base.{
  ℕ, zero, suc, ◌≡◌, refl, ap, Bool, true, false, ◌&&◌, ◌||◌, Option, none, some, [], ◌∷◌, ◌++◌,
  arith, leb, if◌then◌else◌, Text, units, take, length, ◌⊎◌, inl, inr, ◌↔◌, ◌+◌, ◌≤◌, All,
  Bool-cases,
}

-- A value of unknown type: a string, or another value with what `String(value)` shows of it.
pub data Value : Type 0 where
  str : Text → Value
  other : Text → Value

unfoldable pub is_alnum : ℕ → Bool
is_alnum c =
    (leb b'a' c && leb c b'z') || ((leb b'A' c && leb c b'Z') || (leb b'0' c && leb c b'9'))

-- `[a-zA-Z0-9]{n}` at the front of the text, with what is left.
unfoldable pub eat : ℕ → Text → Option Text
eat zero s = some s
eat (suc n) [] = none
eat (suc n) (c ∷ s) = if is_alnum c then eat n s else none

abbrev pub at_end : Option Text → Bool
at_end none = false
at_end (some []) = true
at_end (some (c ∷ s)) = false

abbrev pub matches_tail : Option Text → Bool
matches_tail none = false
matches_tail (some rest) = at_end (some rest) || at_end (eat 3 rest)

unfoldable pub is_valid_salesforce_id : Value → Bool
is_valid_salesforce_id (str s) = matches_tail (eat 15 s)
is_valid_salesforce_id (other s) = false

-- The message of the `SFValidationError`, or the id.
pub data Checked : Type 0 where
  valid : Text → Checked
  validation_error : Text → Checked

abbrev shown : Value → Text
shown (str s) = s
shown (other s) = s

checked_value : Bool → Value → Text → Checked
checked_value true v label = valid (shown v)
checked_value false v label =
    validation_error (units "Invalid Salesforce " ++ (label ++ (units ": " ++ take 30 (shown v))))

unfoldable pub require_salesforce_id : Value → Text → Checked
unfolding checked_value
require_salesforce_id v label = checked_value (is_valid_salesforce_id v) v label

abbrev pub AllAlnum : Text → Type 0
AllAlnum s = All (λ c. is_alnum c ≡ true) s

-- Eating `n` characters succeeds exactly on a text with `n` alphanumeric ones in front.
eat_sound :
    (n : ℕ) (s rest : Text)
    → eat n s ≡ some rest
    → AllAlnum rest
    → AllAlnum s × (length s ≡ n + length rest)
unfolding eat
eat_sound zero s rest e h = ground arith
eat_sound (suc n) [] rest e h = absurd (cc)
eat_sound (suc n) (c ∷ s) rest e h = elim (Bool-cases (is_alnum c)) [
  | inl ok ↦ let (all_ok, len) = eat_sound n s rest (rw ok at e) h in ((ok, all_ok), omega arith)
  | inr bad ↦ absurd (ground arith)
]

eat_complete :
    (n : ℕ) (s : Text)
    → AllAlnum s
    → n ≤ length s
    → (rest : Text) × (eat n s ≡ some rest) × (length s ≡ n + length rest) × AllAlnum rest
unfolding eat
eat_complete zero s h k = (s, refl, omega arith, h)
eat_complete (suc n) [] h k = elim k [ ]
eat_complete (suc n) (c ∷ s) h k =
    let (rest, e, len, ok) = eat_complete n s h.1 (omega arith) in
    (rest, rw (h.0) e, omega arith, ok)

at_end-eq : (o : Option Text) → at_end o ≡ true → o ≡ some []
at_end-eq none h = absurd (cc)
at_end-eq (some []) h = refl
at_end-eq (some (c ∷ s)) h = absurd (cc)

at_end_of_length : (s : Text) → length s ≡ 0 → at_end (some s) ≡ true
at_end_of_length [] h = refl
at_end_of_length (c ∷ s) h = absurd (omega arith)

-- A value is a valid id exactly when it is a string of 15 or 18 letters and digits.
abbrev pub IsSalesforceId : Value → Type 0
IsSalesforceId v = (s : Text) × (v ≡ str s) × AllAlnum s × ((length s ≡ 15) ⊎ (length s ≡ 18))

matches_sound :
    (s : Text) (o : Option Text)
    → eat 15 s ≡ o
    → matches_tail o ≡ true
    → AllAlnum s × ((length s ≡ 15) ⊎ (length s ≡ 18))
matches_sound s none e h = absurd (cc)
matches_sound s (some []) e h = let (ok, len) = eat_sound 15 s [] e tt in (ok, inl len)
matches_sound s (some (c ∷ r)) e h =
    let (ok3, len3) = eat_sound 3 (c ∷ r) [] (at_end-eq (eat 3 (c ∷ r)) h) tt in
    let (ok, len) = eat_sound 15 s (c ∷ r) e ok3 in (ok, inr (omega arith))

matches_complete :
    (s : Text) → AllAlnum s → (length s ≡ 15) ⊎ (length s ≡ 18) → matches_tail (eat 15 s) ≡ true
matches_complete s h (inl len) =
    let (rest, e, split, ok) = eat_complete 15 s h (omega arith) in
    rw e (rw (at_end_of_length rest (omega arith)))
matches_complete s h (inr len) =
    let (rest, e, split, ok) = eat_complete 15 s h (omega arith) in
    let (end, e3, split3, ok3) = eat_complete 3 rest ok (omega arith) in
    rw e (ground (arith, e3, at_end_of_length end (omega arith)))

str_injective : (s t : Text) → str s ≡ str t → s ≡ t
str_injective s t e = cc

-- Exactly the strings of 15 or 18 letters and digits are valid ids; no value of another type is.
pub is_valid_salesforce_id_iff : (v : Value) → (is_valid_salesforce_id v ≡ true) ↔ IsSalesforceId v
unfolding is_valid_salesforce_id
is_valid_salesforce_id_iff (str s) = (
  λ h. let (ok, len) = matches_sound s (eat 15 s) refl h in (s, refl, ok, len),
  λ (t, e, ok, len). rw (str_injective s t e) (matches_complete t ok len),
)
is_valid_salesforce_id_iff (other s) = (λ h. absurd (cc), λ (t, e, ok, len). absurd (cc))

-- An id that is required comes back as it was, and only valid ids do; anything else is an error.
pub require_salesforce_id-valid :
    (v : Value) (label id : Text)
    → (require_salesforce_id v label ≡ valid id) ↔ ((v ≡ str id) × IsSalesforceId v)
unfolding require_salesforce_id is_valid_salesforce_id
require_salesforce_id-valid (str s) label id = elim (Bool-cases (is_valid_salesforce_id (str s))) [
  | inl ok ↦ (
    λ h. ((let e : s ≡ id = ground arith in ap str e), (is_valid_salesforce_id_iff (str s)).0 ok),
    λ h. rw ok (ap valid (str_injective s id h.0)),
  )
  | inr bad ↦ (
    λ h. absurd (ground arith),
    λ h. absurd (ground (arith, (is_valid_salesforce_id_iff (str s)).1 h.1)),
  )
]
require_salesforce_id-valid (other s) label id =
    (λ h. absurd (ground arith), λ h. absurd (ground arith))
