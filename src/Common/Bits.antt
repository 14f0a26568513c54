-- ===== src/Common/Bits.antt =====
-- When `|` and `^` of two numbers are 0.
use Prim.Native.Nat.{
  ℕ, zero, suc, ◌/◌, ◌%◌, ◌≤◌, max, bit_or, bit_xor, digits, differ, bit_or-bitwise,
  bit_xor-bitwise,
}
use mathlib.Core.Path.{◌≡◌, refl, sym, ◌∙◌}
use mathlib.Core.Logic.{◌↔◌}
use native.Mathlib.Omega.{arith}

differ-zero : (x y : ℕ) → (differ x y ≡ 0) ↔ (x ≡ y)
differ-zero zero y = (λ h. sym h, λ h. sym h)
differ-zero (suc x) zero = (λ h. h, λ h. h)
differ-zero (suc x) (suc y) =
    let (there, back) = differ-zero x y in (λ h. omega (arith, there h), λ h. back (omega arith))

xor_digits-zero : (n a b : ℕ) → a ≤ n → (digits (λ d. d) differ n a b ≡ 0) ↔ (a ≡ b)
xor_digits-zero zero zero b h = (λ e. sym e, λ e. sym e)
xor_digits-zero zero (suc a) b h = absurd (omega arith)
xor_digits-zero (suc n) zero b h = (λ e. sym e, λ e. sym e)
xor_digits-zero (suc n) (suc a) b h =
    let (there, back) = xor_digits-zero n (suc a / 2) (b / 2) (omega arith) in
    let (low, low') = differ-zero (suc a % 2) (b % 2) in
    (
      λ e. omega (arith, there (omega arith), low (omega arith)),
      λ e. omega (arith, back (omega arith), low' (omega arith)),
    )

pub bit_xor-zero : (a b : ℕ) → (bit_xor a b ≡ 0) ↔ (a ≡ b)
bit_xor-zero a b =
    let (there, back) = xor_digits-zero a a b (omega arith) in
    let open_ : bit_xor a b ≡ digits (λ d. d) differ a a b = bit_xor-bitwise a b in
    (λ e. there (sym open_ ∙ e), λ e. open_ ∙ back e)

or_digits-zero : (n a b : ℕ) → a ≤ n → digits (λ d. d) max n a b ≡ 0 → (a ≡ 0) × (b ≡ 0)
or_digits-zero zero zero b h e = (refl, e)
or_digits-zero zero (suc a) b h e = absurd (omega arith)
or_digits-zero (suc n) zero b h e = (refl, e)
or_digits-zero (suc n) (suc a) b h e =
    let (half, half') = or_digits-zero n (suc a / 2) (b / 2) (omega arith) (omega arith) in
    (omega arith, omega arith)

pub bit_or-zero : (a b : ℕ) → bit_or a b ≡ 0 → (a ≡ 0) × (b ≡ 0)
bit_or-zero a b e =
    let open_ : bit_or a b ≡ digits (λ d. d) max a a b = bit_or-bitwise a b in
    or_digits-zero a a b (omega arith) (sym open_ ∙ e)

pub bit_or-zeros : bit_or 0 0 ≡ 0
bit_or-zeros = refl
