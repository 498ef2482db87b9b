-- ===== src/SfInput/Trim.antt =====
-- `trim` of the language, which frontend/src/lib/sf-validation.ts applies to each text.
use min_demo.Base.{
  ◌≤◌, ◌≡◌, ◌≢◌, refl, ap, ◌∙◌, ◌&&◌, false, [], ◌∷◌, Text, length, arith, Bool-cases, inl, inr,
  is_space,
}
use min_demo.SfInput.Json.{null?, trim_front, trim_back, trim_text}

length-trim_front : (s : Text) → length (trim_front s) ≤ length s
unfolding trim_front
length-trim_front [] = omega arith
length-trim_front (c ∷ s) = ground (arith, length-trim_front s)

length-trim_back : (s : Text) → length (trim_back s) ≤ length s
unfolding trim_back
length-trim_back [] = omega arith
length-trim_back (c ∷ s) = ground (arith, length-trim_back s)

pub length-trim_text : (s : Text) → length (trim_text s) ≤ length s
unfolding trim_text
length-trim_text s = omega (arith, length-trim_back (trim_front s), length-trim_front s)

trim_back_twice : (s : Text) → trim_back (trim_back s) ≡ trim_back s
unfolding trim_back
trim_back_twice [] = refl
trim_back_twice (c ∷ s) = elim (Bool-cases (is_space c && null? (trim_back s))) [
  | inl e ↦ rw e refl
  | inr e ↦ rw e (rw (trim_back_twice s) (rw e refl))
]

-- A text begins with no white space.
abbrev Starts : Text → Type 0
Starts [] = Unit
Starts (c ∷ s) = is_space c ≡ false

trim_front-Starts : (s : Text) → Starts (trim_front s)
unfolding trim_front
trim_front-Starts [] = tt
trim_front-Starts (c ∷ s) = elim (Bool-cases (is_space c)) [
  | inl e ↦ rw e (trim_front-Starts s)
  | inr e ↦ rw e e
]

trim_back-Starts : (s : Text) → Starts s → Starts (trim_back s)
unfolding trim_back
trim_back-Starts [] h = tt
trim_back-Starts (c ∷ s) h = rw h h

trim_front_kept : (s : Text) → Starts s → trim_front s ≡ s
unfolding trim_front
trim_front_kept [] h = refl
trim_front_kept (c ∷ s) h = rw h refl

pub trim_text_twice : (s : Text) → trim_text (trim_text s) ≡ trim_text s
unfolding trim_text
trim_text_twice s =
    ap trim_back (
      trim_front_kept (trim_back (trim_front s))
        (trim_back-Starts (trim_front s) (trim_front-Starts s)))
    ∙ trim_back_twice (trim_front s)

pub null-false : (s : Text) → null? s ≡ false → s ≢ []
null-false [] h e = cc
null-false (c ∷ s) h e = cc
