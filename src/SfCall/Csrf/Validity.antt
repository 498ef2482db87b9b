-- ===== src/SfCall/Csrf/Validity.antt =====
-- `validateCsrfToken` and `generateCsrfToken` of frontend/src/lib/csrf.ts together.
use Prim.Native.Nat.{bit_or, bit_xor}
use min_demo.Base.{
  ℕ, ◌+◌, ◌-◌, ◌*◌, ◌/◌, ◌%◌, ◌<◌, ◌≡◌, ◌≢◌, refl, sym, ◌∙◌, ap, ◌↔◌, true, false, Option, none,
  some, List, [], ◌∷◌, ◌++◌, ltb, ◌==◌, if◌then◌else◌, Text, length, All, arith, Bool-cases, inl,
  inr, ==_iff,
}
use min_demo.SfCall.Bits.{bit_xor_zero, bit_or_zero}
use min_demo.SfCall.Csrf.{
  hex_digit, byte_hex, pad_two, generate_csrf_token, mismatch_from, same_token, validate_csrf_token,
}

-- The loop ends at zero exactly when it began there and the texts agree.
mismatch_from_zero :
    (m : ℕ) (c h : Text) → length c ≡ length h → (mismatch_from m c h ≡ 0) ↔ ((m ≡ 0) × (c ≡ h))
unfolding mismatch_from
mismatch_from_zero m [] [] e = (λ z. (z, refl), λ z. z.0)
mismatch_from_zero m [] (d ∷ h) e = absurd (omega arith)
mismatch_from_zero m (c ∷ cs) [] e = absurd (omega arith)
mismatch_from_zero m (c ∷ cs) (d ∷ h) e =
    let step = mismatch_from_zero (bit_or m (bit_xor c d)) cs h (omega arith) in
    let both = bit_or_zero m (bit_xor c d) in
    let differ = bit_xor_zero c d in
    (
      λ z.
          let p = step.0 z in
          let q = both.0 p.0 in (q.0, ap (λ (k : ℕ). k ∷ cs) (differ.0 q.1) ∙ ap (λ s. d ∷ s) p.1),
      λ (z, w).
          let same : c ≡ d = cc in
          let rest : cs ≡ h = cc in step.1 (both.1 (z, differ.1 same), rest),
    )

same_token_iff : (c h : Text) → (same_token c h ≡ true) ↔ ((c ≢ []) × (c ≡ h))
unfolding same_token
same_token_iff [] h = (λ e. absurd (cc), λ e. absurd (e.0 refl))
same_token_iff (c ∷ cs) [] = (λ e. absurd (cc), λ e. absurd (let z = e.1 in cc))
same_token_iff (c ∷ cs) (d ∷ h) =
    let lens = ==_iff (length (c ∷ cs)) (length (d ∷ h)) in
    let zeros = ==_iff (mismatch_from 0 (c ∷ cs) (d ∷ h)) 0 in
    (
      λ e. elim (Bool-cases (length (c ∷ cs) == length (d ∷ h))) [
        | inl l ↦
            let all_zero : (mismatch_from 0 (c ∷ cs) (d ∷ h) == 0) ≡ true = rw l at e in
            ((λ z. cc), ((mismatch_from_zero 0 (c ∷ cs) (d ∷ h) (lens.0 l)).0 (zeros.0 all_zero)).1)
        | inr l ↦ absurd (let z : false ≡ true = rw l at e in cc)
      ],
      λ e.
          rw (lens.1 (ap length e.1))
            (zeros.1 ((mismatch_from_zero 0 (c ∷ cs) (d ∷ h) (ap length e.1)).1 (refl, e.1))),
    )

-- The comparison without an early exit accepts exactly two tokens that are there, not empty and
-- equal.
pub validate_csrf_token_iff :
    (cookie header : Option Text)
    → (validate_csrf_token cookie header ≡ true)
      ↔ ((token : Text) × (token ≢ []) × (cookie ≡ some token) × (header ≡ some token))
unfolding validate_csrf_token
validate_csrf_token_iff none header = (λ e. absurd (cc), λ (t, n, e, f). absurd (cc))
validate_csrf_token_iff (some c) none = (λ e. absurd (cc), λ (t, n, e, f). absurd (cc))
validate_csrf_token_iff (some c) (some h) = (
  λ e. let p = (same_token_iff c h).0 e in (c, p.0, refl, ap some (sym p.1)),
  λ (t, n, e, f).
      let ct : c ≡ t = cc in
      let ch : c ≡ h = cc in (same_token_iff c h).1 ((λ z. n (sym ct ∙ z)), ch),
)

-- The two hexadecimal digits of a byte, read back.
abbrev unhex : ℕ → ℕ
unhex c = if ltb c b'a' then c - b'0' else (c - b'a') + 10

unhex-hex_digit : (n : ℕ) → n < 16 → unhex (hex_digit n) ≡ n
unhex-hex_digit n h = ground arith

two_digits : (b : ℕ) → b < 256 → pad_two (byte_hex b) ≡ hex_digit (b / 16) ∷ hex_digit (b % 16) ∷ []
two_digits b h = elim (Bool-cases (ltb b 16)) [
  | inl e ↦
      let q : b / 16 ≡ 0 = ground arith in let r : b % 16 ≡ b = ground arith in rw (e, q, r) refl
  | inr e ↦ rw e refl
]

abbrev read_token : Text → List ℕ
read_token [] = []
read_token (c ∷ []) = []
read_token (c ∷ d ∷ s) = (unhex c * 16 + unhex d) ∷ read_token s

read_token-generate :
    (bytes : List ℕ) → All (λ b. b < 256) bytes → read_token (generate_csrf_token bytes) ≡ bytes
unfolding generate_csrf_token
read_token-generate [] h = refl
read_token-generate (b ∷ bytes) h =
    let high = unhex-hex_digit (b / 16) (omega (arith, h.0)) in
    let low = unhex-hex_digit (b % 16) (omega arith) in
    let whole : b / 16 * 16 + b % 16 ≡ b = omega arith in
    rw (two_digits b h.0)
      (rw (high, low, read_token-generate bytes h.1) (ap (λ (k : ℕ). k ∷ bytes) whole))

padded≢nil : (t s : Text) → pad_two t ++ s ≢ []
padded≢nil [] s h = cc
padded≢nil (c ∷ []) s h = cc
padded≢nil (c ∷ d ∷ t) s h = cc

generate≢nil : (b : ℕ) (bytes : List ℕ) → generate_csrf_token (b ∷ bytes) ≢ []
unfolding generate_csrf_token
generate≢nil b bytes = padded≢nil (byte_hex b) (generate_csrf_token bytes)

-- A header that holds the token of some random bytes passes against the cookie with the token of
-- others exactly when the bytes are the same, if there are bytes at all.
pub validate-generate :
    (b : ℕ) (bytes other : List ℕ)
    → All (λ k. k < 256) (b ∷ bytes)
    → All (λ k. k < 256) other
    → (validate_csrf_token
          (some (generate_csrf_token (b ∷ bytes)))
          (some (generate_csrf_token other))
        ≡ true)
      ↔ (b ∷ bytes ≡ other)
validate-generate b bytes other h ho =
    let valid =
      validate_csrf_token_iff (some (generate_csrf_token (b ∷ bytes)))
        (some (generate_csrf_token other)) in
    (
      λ e.
          let (t, n, p, q) = valid.0 e in
          let same : generate_csrf_token (b ∷ bytes) ≡ generate_csrf_token other = cc in
          sym (read_token-generate (b ∷ bytes) h)
          ∙ (ap read_token same ∙ read_token-generate other ho),
      λ e. valid.1 (
        generate_csrf_token (b ∷ bytes),
        generate≢nil b bytes,
        refl,
        ap (λ s. some (generate_csrf_token s)) (sym e),
      ),
    )
