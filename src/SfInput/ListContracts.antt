-- ===== src/SfInput/ListContracts.antt =====
-- What the validators of frontend/src/lib/sf-validation.ts promise of the lists that they accept.
use min_demo.Base.{
  ℕ, suc, ◌≤◌, ◌≡◌, refl, ap, String, List, [], ◌∷◌, Text, length, ltb, arith, All, Bool-cases, inl,
  inr, ◌<>◌,
}
use min_demo.SfInput.Json.{Json, undefined, null, text, array, to_list}
use min_demo.SfInput.Checks.{
  Validated, valid, invalid, ◌>>=◌, Fields, require_array, optional_array, items_within, map_valid,
  as_text,
}
use min_demo.SfInput.Contracts.{Ensures, ensured, refused, ensures_bind}

items_within-length :
    (field : String) (n : ℕ) (xs : List Json)
    → Ensures (λ (ys : List Json). length ys ≤ n) (items_within field n xs)
items_within-length field n xs = elim (Bool-cases (ltb n (length xs))) [
  | inl e ↦ rw e (refused _)
  | inr e ↦ rw e (ensured xs (ground arith))
]

pub require_array-length :
    (d : Fields) (field : String) (n : ℕ)
    → Ensures (λ (xs : List Json). length xs ≤ n) (require_array d field n)
unfolding require_array
require_array-length d field n = by_value (d field)
  where
    by_value :
        (j : Json)
        → Ensures
            (λ (xs : List Json). length xs ≤ n)
            (elim j [
              | array js ↦ items_within field n (to_list js)
              | _ ↦ invalid ("Missing required array: " <> field)
            ])
    by_value (array js) = items_within-length field n (to_list js)
    by_value _ = refused _

pub optional_array-length :
    (d : Fields) (field : String) (n : ℕ)
    → Ensures (λ (xs : List Json). length xs ≤ n) (optional_array d field n)
unfolding optional_array
optional_array-length d field n = by_value (d field)
  where
    by_value :
        (j : Json)
        → Ensures
            (λ (xs : List Json). length xs ≤ n)
            (elim j [
              | undefined ↦ valid []
              | null ↦ valid []
              | array js ↦ items_within field n (to_list js)
              | _ ↦ invalid ("Field " <> (field <> " must be an array"))
            ])
    by_value undefined = ensured [] (omega arith)
    by_value null = ensured [] (omega arith)
    by_value (array js) = items_within-length field n (to_list js)
    by_value _ = refused _

-- Each item satisfies what the step ensures, and there are as many as there were.
pub map_valid-All :
    {A B : Type 0} (P : B → Type 0) (f : A → Validated B)
    → ((a : A) → Ensures P (f a))
    → (xs : List A) → Ensures (λ (ys : List B). All P ys × (length ys ≡ length xs)) (map_valid f xs)
unfolding map_valid
map_valid-All P f h [] = ensured [] (tt, refl)
map_valid-All P f h (x ∷ xs) = ensures_bind (f x) _ (h x) (λ y p.
    ensures_bind (map_valid f xs) _ (map_valid-All P f h xs)
      (λ ys q. ensured (y ∷ ys) ((p, q.0), ap suc q.1)))

-- At most `n` items, all of which satisfy the predicate.
pub record AllWithin {A : Type 0} (n : ℕ) (P : A → Type 0) (xs : List A) : Type 0 where
  pub each : All P xs
  pub bounded : length xs ≤ n

pub with_items :
    {A B : Type 0} {Q : B → Type 0} {P : A → Type 0} (f : Json → Validated A)
    → ((j : Json) → Ensures P (f j))
    → (d : Fields) (field : String) (n : ℕ) (k : List A → Validated B)
    → ((ys : List A) → AllWithin n P ys → Ensures Q (k ys))
    → Ensures Q (require_array d field n >>= λ raw. map_valid f raw >>= k)
with_items {P} f hf d field n k hk =
    ensures_bind (require_array d field n) _ (require_array-length d field n) (λ raw len.
      ensures_bind (map_valid f raw) k (map_valid-All P f hf raw)
        (λ ys q. hk ys record { each = q.0; bounded = omega (arith, q.1) }))

-- A list of texts of at most `n` items.
pub record IsTexts (n : ℕ) (xs : List Text) : Type 0 where
  pub bounded : length xs ≤ n

-- The texts of an array, which has at most `n` items when it is accepted.
texts-Ensures :
    {B : Type 0} {Q : B → Type 0} (m : Validated (List Json)) (message : String) (n : ℕ)
    (k : List Text → Validated B)
    → Ensures (λ (xs : List Json). length xs ≤ n) m
    → ((ys : List Text) → IsTexts n ys → Ensures Q (k ys))
    → Ensures Q (m >>= λ raw. map_valid (as_text message) raw >>= k)
texts-Ensures m message n k hm hk = ensures_bind m _ hm (λ raw len.
    ensures_bind (map_valid (as_text message) raw) k
      (map_valid-All (λ (s : Text). Unit) (as_text message) any_text raw)
      (λ ys q. hk ys record { bounded = omega (arith, q.1) }))
  where
    any_text : (j : Json) → Ensures (λ (s : Text). Unit) (as_text message j)
    any_text (text s) = ensured s tt
    any_text _ = refused _

module _ {B : Type 0} {Q : B → Type 0} (d : Fields) (field message : String) (n : ℕ)
    (k : List Text → Validated B) (h : (ys : List Text) → IsTexts n ys → Ensures Q (k ys)) where
  pub with_texts :
      Ensures Q (require_array d field n >>= λ raw. map_valid (as_text message) raw >>= k)
  with_texts =
      texts-Ensures (require_array d field n) message n k (require_array-length d field n) h

  pub with_optional_texts :
      Ensures Q (optional_array d field n >>= λ raw. map_valid (as_text message) raw >>= k)
  with_optional_texts =
      texts-Ensures (optional_array d field n) message n k (optional_array-length d field n) h
