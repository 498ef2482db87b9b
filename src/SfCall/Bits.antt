-- ===== src/SfCall/Bits.antt =====
-- When the exclusive or and the or of two numbers are zero, for the loop of `validateCsrfToken` in
-- frontend/src/lib/csrf.ts.
use Prim.Native.Nat.{bit_or, bit_xor, bit_or-bitwise, bit_xor-bitwise, digits, differ, max}
use min_demo.Base.{ℕ, zero, suc, ◌/◌, ◌%◌, ◌≤◌, ◌≡◌, refl, sym, ap, ◌↔◌, arith}

differ_zero : (x y : ℕ) → (differ x y ≡ 0) ↔ (x ≡ y)
differ_zero zero y = (λ h. sym h, λ h. sym h)
differ_zero (suc x) zero = (λ h. h, λ h. h)
differ_zero (suc x) (suc y) =
    (λ h. ap suc ((differ_zero x y).0 h), λ h. (differ_zero x y).1 (omega arith))

abbrev same : ℕ → ℕ
same b = b

xor_digits : (n a b : ℕ) → a ≤ n → (digits same differ n a b ≡ 0) ↔ (a ≡ b)
xor_digits zero a b h = (λ e. omega arith, λ e. omega arith)
xor_digits (suc n) zero b h = (λ e. sym e, λ e. sym e)
xor_digits (suc n) (suc a) b h =
    let high = xor_digits n (suc a / 2) (b / 2) (omega arith) in
    let low = differ_zero (suc a % 2) (b % 2) in
    (
      λ e.
          let p : suc a / 2 ≡ b / 2 = high.0 (omega arith) in
          let q : suc a % 2 ≡ b % 2 = low.0 (omega arith) in omega arith,
      λ e.
          let p : digits same differ n (suc a / 2) (b / 2) ≡ 0 = high.1 (rw e refl) in
          let q : differ (suc a % 2) (b % 2) ≡ 0 = low.1 (rw e refl) in omega arith,
    )

or_digits : (n a b : ℕ) → a ≤ n → (digits same max n a b ≡ 0) ↔ ((a ≡ 0) × (b ≡ 0))
or_digits zero a b h = (λ e. (omega arith, e), λ e. e.1)
or_digits (suc n) zero b h = (λ e. (refl, e), λ e. e.1)
or_digits (suc n) (suc a) b h = (
  λ e.
      let high = (or_digits n (suc a / 2) (b / 2) (omega arith)).0 (omega arith) in
      let p : suc a / 2 ≡ 0 = high.0 in absurd (omega arith),
  λ e. absurd (omega arith),
)

pub bit_xor_zero : (a b : ℕ) → (bit_xor a b ≡ 0) ↔ (a ≡ b)
bit_xor_zero a b = rw (bit_xor-bitwise a b) (xor_digits a a b (omega arith))

pub bit_or_zero : (a b : ℕ) → (bit_or a b ≡ 0) ↔ ((a ≡ 0) × (b ≡ 0))
bit_or_zero a b = rw (bit_or-bitwise a b) (or_digits a a b (omega arith))
