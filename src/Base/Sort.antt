-- ===== src/Base/Sort.antt =====
-- `[...xs].sort((a, b) => key(a) - key(b))`. The language promises a stable sort; the result is the
-- one list that is in order and keeps the elements of each key in their order.
use Prim.Native.Nat.{ℕ, zero, suc, ◌≤◌, ◌<◌, min}
use mathlib.Core.Path.{◌≡◌, refl, ap, sym, ◌∙◌, subst}
use mathlib.Core.Logic.{inl, inr}
use mathlib.Core.List.{List, [], ◌∷◌, ◌++◌}
use native.Mathlib.Omega.{arith}
use min_demo.Base.Tests.{if◌then◌else◌, Bool-cases, leb, leb→le, leb→gt, ◌==◌}
use min_demo.Base.Lists.{length, All, All-take, take, drop, take-append-drop, length-take}
use min_demo.Base.Filters.{filter}

module _ {ℓ} {A : Type ℓ} (key : A → ℕ) where
  abbrev pub insert : A → List A → List A
  insert x [] = x ∷ []
  insert x (y ∷ ys) = if leb (key x) (key y) then x ∷ y ∷ ys else y ∷ insert x ys

  unfoldable pub sort_by : List A → List A
  sort_by [] = []
  sort_by (x ∷ xs) = insert x (sort_by xs)

  -- In order of the key, and the elements of one key.
  abbrev pub InOrder : List A → Type ℓ
  InOrder [] = Unit
  InOrder (x ∷ xs) = All (λ y. key x ≤ key y) xs × InOrder xs

  abbrev pub with_key : ℕ → List A → List A
  with_key k xs = filter (λ x. key x == k) xs

module _ {ℓ κ} {A : Type ℓ} (key : A → ℕ) (P : A → Type κ) where
  All-insert : (x : A) (ys : List A) → P x → All P ys → All P (insert key x ys)
  All-insert x [] hx h = (hx, tt)
  All-insert x (y ∷ ys) hx h = elim (Bool-cases (leb (key x) (key y))) [
    | inl e ↦ rw e (hx, h)
    | inr e ↦ rw e (h.0, All-insert x ys hx h.1)
  ]

  pub All-sort_by : (xs : List A) → All P xs → All P (sort_by key xs)
  unfolding sort_by
  All-sort_by [] h = tt
  All-sort_by (x ∷ xs) h = All-insert x (sort_by key xs) h.0 (All-sort_by xs h.1)

module _ {ℓ} {A : Type ℓ} (key : A → ℕ) where
  above : (a b : ℕ) (ys : List A) → a ≤ b → All (λ y. b ≤ key y) ys → All (λ y. a ≤ key y) ys
  above a b [] h hs = tt
  above a b (y ∷ ys) h hs = (omega (arith, hs.0), above a b ys h hs.1)

  insert-InOrder : (x : A) (ys : List A) → InOrder key ys → InOrder key (insert key x ys)
  insert-InOrder x [] h = (tt, tt)
  insert-InOrder x (y ∷ ys) h = elim (Bool-cases (leb (key x) (key y))) [
    | inl e ↦
        let le : key x ≤ key y = leb→le (key x) (key y) e in
        rw e ((le, above (key x) (key y) ys le h.0), h)
    | inr e ↦
        let gt : key y < key x = leb→gt (key x) (key y) e in
        rw e (All-insert key (λ z. key y ≤ key z) x ys (omega arith) h.0, insert-InOrder x ys h.1)
  ]

  pub sort_by-InOrder : (xs : List A) → InOrder key (sort_by key xs)
  unfolding sort_by
  sort_by-InOrder [] = tt
  sort_by-InOrder (x ∷ xs) = insert-InOrder x (sort_by key xs) (sort_by-InOrder xs)

  with_key-insert :
      (k : ℕ) (x : A) (ys : List A) → with_key key k (insert key x ys) ≡ with_key key k (x ∷ ys)
  with_key-insert k x [] = refl
  with_key-insert k x (y ∷ ys) = elim (Bool-cases (leb (key x) (key y))) [
    | inl e ↦ rw e refl
    | inr e ↦ rw e (ground (arith, with_key-insert k x ys))
  ]

  pub with_key-sort_by : (k : ℕ) (xs : List A) → with_key key k (sort_by key xs) ≡ with_key key k xs
  unfolding sort_by
  with_key-sort_by k [] = refl
  with_key-sort_by k (x ∷ xs) =
      with_key-insert k x (sort_by key xs) ∙ ground (arith, with_key-sort_by k xs)

  none_below : (k : ℕ) (ys : List A) → All (λ y. suc k ≤ key y) ys → with_key key k ys ≡ []
  none_below k [] h = refl
  none_below k (y ∷ ys) h = ground (arith, none_below k ys h.1, h.0)

  length-insert : (x : A) (ys : List A) → length (insert key x ys) ≡ suc (length ys)
  length-insert x [] = refl
  length-insert x (y ∷ ys) = elim (Bool-cases (leb (key x) (key y))) [
    | inl e ↦ rw e refl
    | inr e ↦ rw e (ap suc (length-insert x ys))
  ]

  least_first :
      (x y : A) (xs ys : List A)
      → All (λ z. key y ≤ key z) ys
      → ((k : ℕ) → with_key key k (x ∷ xs) ≡ with_key key k (y ∷ ys))
      → key y ≤ key x
  least_first x y xs ys hy h = elim (Bool-cases (leb (key y) (key x))) [
    | inl e ↦ leb→le (key y) (key x) e
    | inr e ↦
        let lt : suc (key x) ≤ key y = omega (arith, leb→gt (key y) (key x) e) in
        absurd (
          ground
            (arith, h (key x), none_below (key x) ys (above (suc (key x)) (key y) ys lt hy), lt))
  ]

  same_head :
      (x y : A) (xs ys : List A)
      → All (λ z. key x ≤ key z) xs
      → All (λ z. key y ≤ key z) ys
      → ((k : ℕ) → with_key key k (x ∷ xs) ≡ with_key key k (y ∷ ys))
      → x ≡ y
  same_head x y xs ys hx hy h =
      let le : key y ≤ key x = least_first x y xs ys hy h in
      let ge : key x ≤ key y = least_first y x ys xs hx (λ k. sym (h k)) in
      ground (arith, h (key x), le, ge)

  -- Two lists in order with the same elements at each key are equal.
  pub InOrder-unique :
      (xs ys : List A)
      → InOrder key xs
      → InOrder key ys
      → ((k : ℕ) → with_key key k xs ≡ with_key key k ys)
      → xs ≡ ys
  InOrder-unique [] [] hx hy h = refl
  InOrder-unique [] (y ∷ ys) hx hy h = absurd (ground (arith, h (key y)))
  InOrder-unique (x ∷ xs) [] hx hy h = absurd (ground (arith, h (key x)))
  InOrder-unique (x ∷ xs) (y ∷ ys) hx hy h =
      let heads : x ≡ y = same_head x y xs ys hx.0 hy.0 h in
      let tails : (k : ℕ) → with_key key k xs ≡ with_key key k ys =
        λ k. ground (arith, h k, heads) in
      ap (λ z. z ∷ xs) heads ∙ ap (λ zs. y ∷ zs) (InOrder-unique xs ys hx.1 hy.1 tails)

  -- What is in order and keeps the elements of each key in their order is the sorted list.
  pub sort_by_unique :
      (xs ys : List A)
      → InOrder key ys
      → ((k : ℕ) → with_key key k ys ≡ with_key key k xs)
      → ys ≡ sort_by key xs
  sort_by_unique xs ys hy h =
      InOrder-unique ys (sort_by key xs) hy (sort_by-InOrder xs)
        (λ k. h k ∙ sym (with_key-sort_by k xs))

  pub InOrder-take : (n : ℕ) (xs : List A) → InOrder key xs → InOrder key (take n xs)
  InOrder-take zero xs h = tt
  InOrder-take (suc n) [] h = tt
  InOrder-take (suc n) (x ∷ xs) h = (All-take (λ y. key x ≤ key y) n xs h.0, InOrder-take n xs h.1)

  pub length-sort_by : (xs : List A) → length (sort_by key xs) ≡ length xs
  unfolding sort_by
  length-sort_by [] = refl
  length-sort_by (x ∷ xs) = length-insert x (sort_by key xs) ∙ ap suc (length-sort_by xs)

-- The first `n` of a list in the order of the key: what is left out follows in that order, and both
-- together are the list, with the elements of each key in their order.
pub record IsTop {ℓ} {A : Type ℓ} (key : A → ℕ) (n : ℕ) (xs ys : List A) : Type ℓ where
  pub rest : List A
  pub ordered : InOrder key (ys ++ rest)
  pub same : (k : ℕ) → with_key key k (ys ++ rest) ≡ with_key key k xs
  pub size : length ys ≡ min n (length xs)

module _ {ℓ} {A : Type ℓ} (key : A → ℕ) where
  pub take-sort_by-IsTop : (n : ℕ) (xs : List A) → IsTop key n xs (take n (sort_by key xs))
  take-sort_by-IsTop n xs =
      let whole = take-append-drop n (sort_by key xs) in
      record {
        rest = drop n (sort_by key xs);
        ordered = subst (InOrder key) (sym whole) (sort_by-InOrder key xs);
        same = λ k. ap (with_key key k) whole ∙ with_key-sort_by key k xs;
        size = length-take n (sort_by key xs) ∙ ap (min n) (length-sort_by key xs);
      }
