-- ===== src/SfInput/Contracts.antt =====
-- What the validators of frontend/src/lib/sf-validation.ts promise of the inputs that they accept.
use min_demo.Base.{
  ℕ, ◌≤◌, ◌≡◌, ◌≢◌, String, true, Option, none, some, [], ◌∷◌, Text, length, ltb, arith, Bool-cases,
  inl, inr, subst, ◌<>◌,
}
use min_demo.SfClient.Ids.{str, is_valid_salesforce_id}
use min_demo.SfInput.Json.{Json, undefined, null, text, null?, trim_text}
use min_demo.SfInput.Trim.{length-trim_text, trim_text_twice, null-false}
use min_demo.SfInput.Checks.{
  Validated, valid, invalid, ◌>>=◌, Fields, require_string, require_sf_id, optional_sf_id,
  text_within, checked_id, optional_id,
}

-- An accepted result satisfies the predicate.
pub data Ensures {A : Type 0} (P : A → Type 0) : Validated A → Type 0 where
  ensured : (a : A) → P a → Ensures P (valid a)
  refused : (m : String) → Ensures P (invalid m)

pub ensures_bind :
    {A B : Type 0} {P : A → Type 0} {Q : B → Type 0} (m : Validated A) (f : A → Validated B)
    → Ensures P m
    → ((a : A) → P a → Ensures Q (f a))
    → Ensures Q (m >>= f)
unfolding ◌>>=◌
ensures_bind m f (ensured a p) k = k a p
ensures_bind m f (refused r) k = refused r

-- The rest of a chain, whatever a step gives.
pub after :
    {A B : Type 0} {Q : B → Type 0} (m : Validated A) (f : A → Validated B)
    → ((a : A) → Ensures Q (f a))
    → Ensures Q (m >>= f)
unfolding ◌>>=◌
after (valid a) f k = k a
after (invalid m) f k = refused m

pub accepted :
    {A : Type 0} (P : A → Type 0) (m : Validated A) (a : A) → Ensures P m → m ≡ valid a → P a
accepted P m a (ensured b p) e = let same : b ≡ a = cc in subst P same p
accepted P m a (refused r) e = absurd (cc)

pub record IsId (s : Text) : Type 0 where
  pub at : is_valid_salesforce_id (str s) ≡ true

-- An id, if there is one.
pub record IsIdOrNone (o : Option Text) : Type 0 where
  pub at : (s : Text) → o ≡ some s → IsId s

-- Text that is not empty, has no white space at its ends, and has at most `n` units.
pub record IsText (n : ℕ) (s : Text) : Type 0 where
  pub nonempty : s ≢ []
  pub trimmed : trim_text s ≡ s
  pub bounded : length s ≤ n

pub require_string-IsText :
    (d : Fields) (field : String) (n : ℕ) → Ensures (IsText n) (require_string d field n)
unfolding require_string
require_string-IsText d field n = by_value (d field)
  where
    within : (s : Text) → Ensures (IsText n) (text_within field n s)
    within s = elim (Bool-cases (null? (trim_text s))) [
      | inl e ↦ rw e (refused _)
      | inr e ↦ elim (Bool-cases (ltb n (length s))) [
        | inl f ↦ rw (e, f) (refused _)
        | inr f ↦
            rw (e, f)
              (ensured (trim_text s) record {
                nonempty = null-false (trim_text s) e;
                trimmed = trim_text_twice s;
                bounded = ground (arith, length-trim_text s);
              })
      ]
    ]

    by_value :
        (j : Json)
        → Ensures (IsText n) (elim j [
          | text s ↦ text_within field n s
          | _ ↦ invalid ("Missing required field: " <> field)
        ])
    by_value (text s) = within s
    by_value _ = refused _

pub require_sf_id-IsId : (d : Fields) (field : String) → Ensures IsId (require_sf_id d field)
unfolding require_sf_id
require_sf_id-IsId d field = by_value (d field)
  where
    by_text : (s : Text) → Ensures IsId (checked_id field s)
    by_text s = elim (Bool-cases (is_valid_salesforce_id (str s))) [
      | inl e ↦ rw e (ensured s record { at = e })
      | inr e ↦ rw e (refused _)
    ]

    by_value :
        (j : Json)
        → Ensures IsId (elim j [
          | text s ↦ checked_id field s
          | _ ↦ invalid ("Invalid Salesforce ID for " <> field)
        ])
    by_value (text s) = by_text s
    by_value _ = refused _

no_id : IsIdOrNone none
no_id = record { at = λ t e. absurd (cc) }

pub optional_sf_id-IsId :
    (d : Fields) (field : String) → Ensures IsIdOrNone (optional_sf_id d field)
unfolding optional_sf_id
optional_sf_id-IsId d field = by_value (d field)
  where
    by_text : (s : Text) → Ensures IsIdOrNone (optional_id field s)
    by_text [] = ensured none no_id
    by_text (c ∷ s) = elim (Bool-cases (is_valid_salesforce_id (str (c ∷ s)))) [
      | inl e ↦ rw e (
          ensured (some (c ∷ s))
            record { at = λ t q. let same : c ∷ s ≡ t = cc in subst IsId same record { at = e } })
      | inr e ↦ rw e (refused _)
    ]

    by_value :
        (j : Json)
        → Ensures IsIdOrNone (elim j [
          | undefined ↦ valid none
          | null ↦ valid none
          | text s ↦ optional_id field s
          | _ ↦ invalid ("Invalid Salesforce ID for " <> field)
        ])
    by_value (text s) = by_text s
    by_value undefined = ensured none no_id
    by_value null = ensured none no_id
    by_value _ = refused _

-- The steps of a chain, each with what the rest of it may use.
module _ {B : Type 0} {Q : B → Type 0} (d : Fields) (field : String) where
  pub with_id :
      (k : Text → Validated B)
      → ((s : Text) → IsId s → Ensures Q (k s))
      → Ensures Q (require_sf_id d field >>= k)
  with_id k h = ensures_bind (require_sf_id d field) k (require_sf_id-IsId d field) h

  pub with_id_or_none :
      (k : Option Text → Validated B)
      → ((o : Option Text) → IsIdOrNone o → Ensures Q (k o))
      → Ensures Q (optional_sf_id d field >>= k)
  with_id_or_none k h = ensures_bind (optional_sf_id d field) k (optional_sf_id-IsId d field) h

  pub with_text :
      (n : ℕ) (k : Text → Validated B)
      → ((s : Text) → IsText n s → Ensures Q (k s))
      → Ensures Q (require_string d field n >>= k)
  with_text n k h = ensures_bind (require_string d field n) k (require_string-IsText d field n) h
