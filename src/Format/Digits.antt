-- ===== src/Format/Digits.antt =====
-- `fmtSSN` and `fmtPhone` of frontend/src/lib/format.ts, which format a field while it is typed.
use min_demo.Base.{
  ℕ, zero, suc, ◌+◌, ◌≡◌, refl, ap, sym, ◌∙◌, true, List, [], ◌∷◌, ◌++◌, arith, Bool-cases, inl,
  inr, take, drop, leb, length, Text, All, filter-append, filter_of_All, take-append-drop,
}
use min_demo.Format.{is_digit, digits_of, group_ssn, fmt_ssn, group_phone, fmt_phone}

module _ {ℓ} {A : Type ℓ} where
  take-take-append : (n : ℕ) (a b : List A) → take n (take n a ++ b) ≡ take n (a ++ b)
  take-take-append zero a b = refl
  take-take-append (suc n) [] b = refl
  take-take-append (suc n) (x ∷ a) b = ap (λ s. x ∷ s) (take-take-append n a b)

  drop-nil : (n : ℕ) → drop {A = A} n [] ≡ []
  drop-nil zero = refl
  drop-nil (suc n) = refl

  drop-drop : (m n : ℕ) (s : List A) → drop n (drop m s) ≡ drop (m + n) s
  drop-drop zero n s = let e : 0 + n ≡ n = omega arith in rw e refl
  drop-drop (suc m) n [] = rw (drop-nil n, drop-nil (suc m + n)) refl
  drop-drop (suc m) n (x ∷ s) =
      let e : suc m + n ≡ suc (m + n) = omega arith in rw e (drop-drop m n s)

abbrev AllDigits : Text → Type 0
AllDigits d = All (λ c. is_digit c ≡ true) d

AllDigits-take : (n : ℕ) (d : Text) → AllDigits d → AllDigits (take n d)
AllDigits-take zero d h = tt
AllDigits-take (suc n) [] h = tt
AllDigits-take (suc n) (c ∷ d) h = (h.0, AllDigits-take n d h.1)

AllDigits-drop : (n : ℕ) (d : Text) → AllDigits d → AllDigits (drop n d)
AllDigits-drop zero d h = h
AllDigits-drop (suc n) [] h = tt
AllDigits-drop (suc n) (c ∷ d) h = AllDigits-drop n d h.1

AllDigits-digits_of : (v : Text) → AllDigits (digits_of v)
unfolding digits_of
AllDigits-digits_of [] = tt
AllDigits-digits_of (c ∷ v) = elim (Bool-cases (is_digit c)) [
  | inl e ↦ rw e (e, AllDigits-digits_of v)
  | inr e ↦ rw e (AllDigits-digits_of v)
]

digits_of-append : (v w : Text) → digits_of (v ++ w) ≡ digits_of v ++ digits_of w
unfolding digits_of
digits_of-append = filter-append is_digit

digits_of_kept : (d : Text) → AllDigits d → digits_of d ≡ d
unfolding digits_of
digits_of_kept = filter_of_All is_digit

-- Separators stand between the pieces of the digits.
digits_of_dash : (d : Text) → digits_of (b'-' ∷ d) ≡ digits_of d
unfolding digits_of
digits_of_dash d = refl

digits_of_open : (d : Text) → digits_of (b'(' ∷ d) ≡ digits_of d
unfolding digits_of
digits_of_open d = refl

digits_of_close : (d : Text) → digits_of (b')' ∷ b' ' ∷ d) ≡ digits_of d
unfolding digits_of
digits_of_close d = refl

module _ (d : Text) (h : AllDigits d) where
  kept_take : (n : ℕ) → digits_of (take n d) ≡ take n d
  kept_take n = digits_of_kept (take n d) (AllDigits-take n d h)

  kept_drop : (n : ℕ) → digits_of (drop n d) ≡ drop n d
  kept_drop n = digits_of_kept (drop n d) (AllDigits-drop n d h)

  kept_middle : (m n : ℕ) → digits_of (take n (drop m d)) ≡ take n (drop m d)
  kept_middle m n =
      digits_of_kept (take n (drop m d)) (AllDigits-take n (drop m d) (AllDigits-drop m d h))

  three : (m n k : ℕ) → k ≡ m + n → take m d ++ (take n (drop m d) ++ drop k d) ≡ d
  three m n k e =
      ap (λ s. take m d ++ s) (rw (e, sym (drop-drop m n d)) (take-append-drop n (drop m d)))
      ∙ take-append-drop m d

  digits_of-group_ssn : digits_of (group_ssn d) ≡ d
  unfolding group_ssn
  digits_of-group_ssn = elim (Bool-cases (leb (length d) 3)) [
    | inl e ↦ rw e (digits_of_kept d h)
    | inr e ↦ elim (Bool-cases (leb (length d) 5)) [
      | inl f ↦
          simp (e, f, digits_of-append, digits_of_dash, kept_take, kept_drop) (take-append-drop 3 d)
      | inr f ↦
          simp (e, f, digits_of-append, digits_of_dash, kept_take, kept_drop, kept_middle)
            (three 3 2 5 refl)
    ]
  ]

  digits_of-group_phone : digits_of (group_phone d) ≡ d
  unfolding group_phone
  digits_of-group_phone = elim (Bool-cases (leb (length d) 3)) [
    | inl e ↦ rw e (digits_of_kept d h)
    | inr e ↦ elim (Bool-cases (leb (length d) 6)) [
      | inl f ↦
          simp (e, f, digits_of-append, digits_of_open, digits_of_close, kept_take, kept_drop)
            (take-append-drop 3 d)
      | inr f ↦
          simp
            (
              e, f, digits_of-append, digits_of_open, digits_of_close, digits_of_dash, kept_take,
              kept_drop, kept_middle,
            )
            (three 3 3 6 refl)
    ]
  ]

-- A formatter that groups the first `n` digits and whose groups give the digits back.
module _ (n : ℕ) (group : Text → Text)
    (regain : (d : Text) → AllDigits d → digits_of (group d) ≡ d) where
  abbrev format : Text → Text
  format v = group (take n (digits_of v))

  digits_of-format : (v : Text) → digits_of (format v) ≡ take n (digits_of v)
  digits_of-format v =
      regain (take n (digits_of v)) (AllDigits-take n (digits_of v) (AllDigits-digits_of v))

  format-append : (v w : Text) → format (format v ++ w) ≡ format (v ++ w)
  format-append v w = ap group (
      ap (λ d. take n d)
        (digits_of-append (format v) w ∙ ap (λ d. d ++ digits_of w) (digits_of-format v))
      ∙ (take-take-append n (digits_of v) (digits_of w)
          ∙ ap (λ d. take n d) (sym (digits_of-append v w))))

-- Typing on in the formatted field gives what formatting the whole of the typed text gives, for
-- the SSN and for the phone number, whatever is typed; and the field holds the first 9 or 10
-- digits typed, in their order.
pub formatted_while_typing :
    (v w : Text)
    → (fmt_ssn (fmt_ssn v ++ w) ≡ fmt_ssn (v ++ w))
      × (fmt_phone (fmt_phone v ++ w) ≡ fmt_phone (v ++ w))
      × (digits_of (fmt_ssn v) ≡ take 9 (digits_of v))
      × (digits_of (fmt_phone v) ≡ take 10 (digits_of v))
unfolding fmt_ssn fmt_phone
formatted_while_typing v w = (
  format-append 9 group_ssn digits_of-group_ssn v w,
  format-append 10 group_phone digits_of-group_phone v w,
  digits_of-format 9 group_ssn digits_of-group_ssn v,
  digits_of-format 10 group_phone digits_of-group_phone v,
)
