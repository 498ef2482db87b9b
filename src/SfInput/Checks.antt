-- ===== src/SfInput/Checks.antt =====
-- The helpers of frontend/src/lib/sf-validation.ts. A thrown `SFValidationError` is `invalid` with
-- its message.
use min_demo.Base.{
  ℕ, String, Bool, false, Option, none, some, List, [], ◌∷◌, if◌then◌else◌, Text, length, ltb, ◌<>◌,
  show_ℕ,
}
use min_demo.SfClient.Ids.{str, is_valid_salesforce_id}
use min_demo.SfInput.Json.{
  Json, undefined, null, bool, number, text, array, object, Number, whole, below, infinite, to_list,
  null?, trim_text,
}

pub data Validated {ℓ} (A : Type ℓ) : Type ℓ where
  valid : A → Validated A
  invalid : String → Validated A

infixl 20 ◌>>=◌
unfoldable pub ◌>>=◌ {ℓ κ} :
    {A : Type ℓ} {B : Type κ} → Validated A → (A → Validated B) → Validated B
valid a >>= f = f a
invalid m >>= f = invalid m

abbrev pub Fields : Type 0
Fields = String → Json

abbrev pub text_within : String → ℕ → Text → Validated Text
text_within field max_len s =
    if null? (trim_text s)
    then invalid ("Missing required field: " <> field)
    else if ltb max_len (length s)
    then invalid ("Field " <> (field <> (" exceeds max length of " <> show_ℕ max_len)))
    else valid (trim_text s)

unfoldable pub require_string : Fields → String → ℕ → Validated Text
require_string d field max_len = elim (d field) [
  | text s ↦ text_within field max_len s
  | _ ↦ invalid ("Missing required field: " <> field)
]

abbrev pub optional_text : String → ℕ → Text → Validated (Option Text)
optional_text field max_len [] = valid none
optional_text field max_len (c ∷ s) =
    if ltb max_len (length (c ∷ s))
    then invalid ("Field " <> (field <> (" exceeds max length of " <> show_ℕ max_len)))
    else valid (some (trim_text (c ∷ s)))

unfoldable pub optional_string : Fields → String → ℕ → Validated (Option Text)
optional_string d field max_len = elim (d field) [
  | undefined ↦ valid none
  | null ↦ valid none
  | text s ↦ optional_text field max_len s
  | _ ↦ invalid ("Field " <> (field <> " must be a string"))
]

-- `isValidSalesforceId(val)`.
abbrev pub is_sf_id : Json → Bool
is_sf_id (text s) = is_valid_salesforce_id (str s)
is_sf_id _ = false

abbrev pub checked_id : String → Text → Validated Text
checked_id field s =
    if is_valid_salesforce_id (str s)
    then valid s
    else invalid ("Invalid Salesforce ID for " <> field)

unfoldable pub require_sf_id : Fields → String → Validated Text
require_sf_id d field = elim (d field) [
  | text s ↦ checked_id field s
  | _ ↦ invalid ("Invalid Salesforce ID for " <> field)
]

abbrev pub optional_id : String → Text → Validated (Option Text)
optional_id field [] = valid none
optional_id field (c ∷ s) =
    if is_valid_salesforce_id (str (c ∷ s))
    then valid (some (c ∷ s))
    else invalid ("Invalid Salesforce ID for " <> field)

unfoldable pub optional_sf_id : Fields → String → Validated (Option Text)
optional_sf_id d field = elim (d field) [
  | undefined ↦ valid none
  | null ↦ valid none
  | text s ↦ optional_id field s
  | _ ↦ invalid ("Invalid Salesforce ID for " <> field)
]

abbrev pub items_within : String → ℕ → List Json → Validated (List Json)
items_within field max_length xs =
    if ltb max_length (length xs)
    then invalid
        ("Array " <> (field <> (" exceeds maximum of " <> (show_ℕ max_length <> " items"))))
    else valid xs

unfoldable pub require_array : Fields → String → ℕ → Validated (List Json)
require_array d field max_length = elim (d field) [
  | array js ↦ items_within field max_length (to_list js)
  | _ ↦ invalid ("Missing required array: " <> field)
]

unfoldable pub optional_array : Fields → String → ℕ → Validated (List Json)
optional_array d field max_length = elim (d field) [
  | undefined ↦ valid []
  | null ↦ valid []
  | array js ↦ items_within field max_length (to_list js)
  | _ ↦ invalid ("Field " <> (field <> " must be an array"))
]

unfoldable pub require_boolean : Fields → String → Validated Bool
require_boolean d field = elim (d field) [
  | bool b ↦ valid b
  | _ ↦ invalid ("Missing required boolean: " <> field)
]

abbrev pub finite : String → Number → Validated Number
finite field infinite = invalid ("Field " <> (field <> " must be a number"))
finite field (whole n) = valid (whole n)
finite field (below n) = valid (below n)

-- The validators that use it all give a default.
unfoldable pub optional_number : Fields → String → ℕ → Validated Number
optional_number d field default = elim (d field) [
  | undefined ↦ valid (whole default)
  | null ↦ valid (whole default)
  | number n ↦ finite field n
  | _ ↦ invalid ("Field " <> (field <> " must be a number"))
]

unfoldable pub as_record : Json → Validated Fields
as_record (object d) = valid d
as_record _ = invalid "Request data must be an object"

-- `d.field === true`.
abbrev pub is_true : Json → Bool
is_true (bool b) = b
is_true _ = false

-- `list.map(f)` where `f` throws at the first item that is not valid.
unfoldable pub map_valid {ℓ κ} :
    {A : Type ℓ} {B : Type κ} → (A → Validated B) → List A → Validated (List B)
map_valid f [] = valid []
map_valid f (x ∷ xs) = f x >>= λ y. map_valid f xs >>= λ ys. valid (y ∷ ys)

abbrev pub as_text : String → Json → Validated Text
as_text message (text s) = valid s
as_text message _ = invalid message
