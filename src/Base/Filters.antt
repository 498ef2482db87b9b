-- ===== src/Base/Filters.antt =====
-- `filter`, `some` and `every` with a Boolean test, and what they keep.
use Prim.Native.Nat.{◌≤◌}
use mathlib.Core.Path.{◌≡◌, refl, ap, sym, subst}
use mathlib.Core.Logic.{inl, inr, ◌↔◌}
use mathlib.Core.Bool.{Bool, true, false, ◌&&◌, ◌||◌}
use mathlib.Core.List.{List, [], ◌∷◌, ◌++◌, Memᴰ}
use native.Mathlib.Omega.{arith}
use min_demo.Base.Tests.{if◌then◌else◌, Bool-cases}
use min_demo.Base.Lists.{length, All}

module _ {ℓ} {A : Type ℓ} where
  abbrev pub filter : (A → Bool) → List A → List A
  filter p [] = []
  filter p (x ∷ xs) = if p x then x ∷ filter p xs else filter p xs

  abbrev pub any : (A → Bool) → List A → Bool
  any p [] = false
  any p (x ∷ xs) = p x || any p xs

  abbrev pub all : (A → Bool) → List A → Bool
  all p [] = true
  all p (x ∷ xs) = p x && all p xs

module _ {ℓ κ} {A : Type ℓ} (P : A → Type κ) where
  pub All-filter : (p : A → Bool) (xs : List A) → All P xs → All P (filter p xs)
  All-filter p [] h = tt
  All-filter p (x ∷ xs) h = elim (Bool-cases (p x)) [
    | inl e ↦ rw e (h.0, All-filter p xs h.1)
    | inr e ↦ rw e (All-filter p xs h.1)
  ]

module _ {ℓ} {A : Type ℓ} (p : A → Bool) where
  pub length-filter : (xs : List A) → length (filter p xs) ≤ length xs
  length-filter [] = omega arith
  length-filter (x ∷ xs) = ground (arith, length-filter xs)

  -- What is kept passes the test.
  pub filter-All : (xs : List A) → All (λ x. p x ≡ true) (filter p xs)
  filter-All [] = tt
  filter-All (x ∷ xs) = elim (Bool-cases (p x)) [
    | inl e ↦ rw e (e, filter-All xs)
    | inr e ↦ rw e (filter-All xs)
  ]

  pub filter-append : (xs ys : List A) → filter p (xs ++ ys) ≡ filter p xs ++ filter p ys
  filter-append [] ys = refl
  filter-append (x ∷ xs) ys = elim (Bool-cases (p x)) [
    | inl e ↦ rw e (ap (λ zs. x ∷ zs) (filter-append xs ys))
    | inr e ↦ rw e (filter-append xs ys)
  ]

  pub filter_of_All : (xs : List A) → All (λ x. p x ≡ true) xs → filter p xs ≡ xs
  filter_of_All [] h = refl
  filter_of_All (x ∷ xs) h = rw (h.0) (ap (λ zs. x ∷ zs) (filter_of_All xs h.1))

module _ {ℓ} {A : Type ℓ} where
  -- Every element of the second list is one of the first.
  abbrev pub Holds : List A → List A → Type ℓ
  Holds ys xs = All (λ x. Memᴰ x ys) xs

  Holds-cons : (y : A) (ys xs : List A) → Holds ys xs → Holds (y ∷ ys) xs
  Holds-cons y ys [] h = tt
  Holds-cons y ys (x ∷ xs) h = (Memᴰ.tail h.0, Holds-cons y ys xs h.1)

  Holds-eq : {ys ys' xs xs' : List A} → ys ≡ ys' → xs ≡ xs' → Holds ys' xs' → Holds ys xs
  Holds-eq {ys} {ys'} {xs} {xs'} e f h =
      subst (λ s. Holds ys s) (sym f) (subst (λ s. Holds s xs') (sym e) h)

  filter_yes :
      (p : A → Bool) (x : A) (xs : List A) → p x ≡ true → filter p (x ∷ xs) ≡ x ∷ filter p xs
  filter_yes p x xs e = rw e refl

  filter_no : (p : A → Bool) (x : A) (xs : List A) → p x ≡ false → filter p (x ∷ xs) ≡ filter p xs
  filter_no p x xs e = rw e refl

  -- What passes the stronger test is among what passes the weaker one.
  pub Holds-filter :
      (p q : A → Bool)
      → ((x : A) → q x ≡ true → p x ≡ true)
      → (xs : List A) → Holds (filter p xs) (filter q xs)
  Holds-filter p q h [] = tt
  Holds-filter p q h (x ∷ xs) =
      let ih : Holds (filter p xs) (filter q xs) = Holds-filter p q h xs in
      elim (Bool-cases (q x)) [
        | inl e ↦
            Holds-eq (filter_yes p x xs (h x e)) (filter_yes q x xs e)
              (Memᴰ.head refl, Holds-cons x (filter p xs) (filter q xs) ih)
        | inr e ↦ elim (Bool-cases (p x)) [
          | inl f ↦
              Holds-eq (filter_yes p x xs f) (filter_no q x xs e)
                (Holds-cons x (filter p xs) (filter q xs) ih)
          | inr f ↦ Holds-eq (filter_no p x xs f) (filter_no q x xs e) ih
        ]
      ]

-- The second list has exactly the elements of the first that satisfy the predicate, in their order.
pub data Selects {A : Type 0} (P : A → Type 0) : List A → List A → Type 0 where
  nothing : Selects P [] []
  takes : {xs ys : List A} (x : A) → P x → Selects P xs ys → Selects P (x ∷ xs) (x ∷ ys)
  leaves : {xs ys : List A} (x : A) → ¬ P x → Selects P xs ys → Selects P (x ∷ xs) ys

module _ {A : Type 0} (P : A → Type 0) (p : A → Bool) where
  pub filter-Selects : ((x : A) → (p x ≡ true) ↔ P x) → (xs : List A) → Selects P xs (filter p xs)
  filter-Selects h [] = nothing
  filter-Selects h (x ∷ xs) = elim (Bool-cases (p x)) [
    | inl e ↦ rw e (takes x ((h x).0 e) (filter-Selects h xs))
    | inr e ↦
        let no : ¬ P x = λ q. let yes : p x ≡ true = (h x).1 q in absurd (cc) in
        rw e (leaves x no (filter-Selects h xs))
  ]

module _ {A : Type 0} (p : A → Bool) where
  pub filter_twice :
      (q : A → Bool) (xs : List A) → filter q (filter p xs) ≡ filter (λ x. p x && q x) xs
  filter_twice q [] = refl
  filter_twice q (x ∷ xs) = elim (Bool-cases (p x)) [
    | inl e ↦ elim (Bool-cases (q x)) [
      | inl f ↦ rw (e, f) (ap (λ zs. x ∷ zs) (filter_twice q xs))
      | inr f ↦ rw (e, f) (filter_twice q xs)
    ]
    | inr e ↦ rw e (filter_twice q xs)
  ]

  pub any_iff : (xs : List A) → (any p xs ≡ true) ↔ ((x : A) × Memᴰ x xs × (p x ≡ true))
  any_iff xs = (to xs, λ (x, m, e). from xs x m e)
    where
      to : (ys : List A) → any p ys ≡ true → (x : A) × Memᴰ x ys × (p x ≡ true)
      to [] h = absurd (cc)
      to (y ∷ ys) h = elim (Bool-cases (p y)) [
        | inl e ↦ (y, Memᴰ.head refl, e)
        | inr e ↦ let (x, m, k) = to ys (rw e at h) in (x, Memᴰ.tail m, k)
      ]

      from : (ys : List A) (x : A) → Memᴰ x ys → p x ≡ true → any p ys ≡ true
      from [] x m e = elim m [ ]
      from (y ∷ ys) x (Memᴰ.head same) e =
          let here : p y ≡ true = subst (λ z. p z ≡ true) same e in rw here refl
      from (y ∷ ys) x (Memᴰ.tail m) e = ground (arith, from ys x m e)

  pub any-filter : (q : A → Bool) (xs : List A) → any p (filter q xs) ≡ any (λ x. q x && p x) xs
  any-filter q [] = refl
  any-filter q (x ∷ xs) = elim (Bool-cases (q x)) [
    | inl e ↦ rw (e, any-filter q xs) refl
    | inr e ↦ rw (e, any-filter q xs) refl
  ]
