-- ===== src/Base/Xor.antt =====
-- Exclusive or of numbers, digit by digit: twice by the same number gives the first back.
use Prim.Native.Nat.{
  ℕ, zero, suc, ◌+◌, ◌*◌, ◌/◌, ◌%◌, ◌≤◌, ◌<◌, bit_xor, digits, differ, bit_xor-bitwise,
}
use mathlib.Core.Path.{◌≡◌, refl, ap, ◌∙◌}
use mathlib.Core.Logic.{◌⊎◌, inl, inr}
use native.Mathlib.Omega.{arith}

-- `bit_xor`, with the number of digits to go.
abbrev digit_xor : ℕ → ℕ → ℕ → ℕ
digit_xor fuel = digits (λ b. b) differ fuel

differ_self : (x : ℕ) → differ x x ≡ 0
differ_self zero = refl
differ_self (suc x) = differ_self x

-- On digits it is the sum without the carry.
differ_parity : (x y : ℕ) → x < 2 → y < 2 → differ x y ≡ (x + y) % 2
differ_parity zero y p q = omega arith
differ_parity (suc zero) zero p q = refl
differ_parity (suc zero) (suc zero) p q = refl
differ_parity (suc zero) (suc (suc y)) p q = absurd (omega arith)
differ_parity (suc (suc x)) y p q = absurd (omega arith)

digit_xor_self : (fuel k : ℕ) → k ≤ fuel → digit_xor fuel k k ≡ 0
digit_xor_self zero zero h = refl
digit_xor_self zero (suc k) h = absurd (omega arith)
digit_xor_self (suc fuel) zero h = refl
digit_xor_self (suc fuel) (suc k) h =
    omega (arith, digit_xor_self fuel (suc k / 2) (omega arith), differ_self (suc k % 2))

-- Where the first number is known to be positive, one digit can be split off.
digit_xor-positive :
    (fuel x k : ℕ)
    → 0 < x
    → digit_xor (suc fuel) x k ≡ digit_xor fuel (x / 2) (k / 2) * 2 + differ (x % 2) (k % 2)
digit_xor-positive fuel zero k h = absurd (omega arith)
digit_xor-positive fuel (suc x) k h = refl

zero_or_positive : (x : ℕ) → (x ≡ 0) ⊎ (0 < x)
zero_or_positive zero = inl refl
zero_or_positive (suc x) = inr (omega arith)

digit_xor-digit_xor :
    (n m a k : ℕ) → a ≤ n → digit_xor n a k ≤ m → digit_xor m (digit_xor n a k) k ≡ a
digit_xor-digit_xor zero m zero k p q = digit_xor_self m k q
digit_xor-digit_xor zero m (suc a) k p q = absurd (omega arith)
digit_xor-digit_xor (suc n) m zero k p q = digit_xor_self m k q
digit_xor-digit_xor (suc n) zero (suc a) k p q = omega (
  arith,
  digit_xor-digit_xor n zero (suc a / 2) (k / 2) (omega arith) (omega arith),
  differ_parity (suc a % 2) (k % 2) (omega arith) (omega arith),
)
digit_xor-digit_xor (suc n) (suc m) (suc a) k p q =
    let parity = differ_parity (suc a % 2) (k % 2) (omega arith) (omega arith) in
    let x = digit_xor n (suc a / 2) (k / 2) in
    elim (zero_or_positive (digit_xor (suc n) (suc a) k)) [
      | inl none_left ↦ rw none_left (
          omega (
            arith,
            parity,
            none_left,
            digit_xor-digit_xor n zero (suc a / 2) (k / 2) (omega arith) (omega arith),
          ))
      | inr positive ↦
          let half : digit_xor (suc n) (suc a) k / 2 ≡ x = omega (arith, parity) in
          omega (
            arith,
            parity,
            digit_xor-positive m (digit_xor (suc n) (suc a) k) k positive,
            ap (λ (t : ℕ). digit_xor m t (k / 2)) half,
            differ_parity (digit_xor (suc n) (suc a) k % 2) (k % 2) (omega arith) (omega arith),
            digit_xor-digit_xor n m (suc a / 2) (k / 2) (omega arith) (omega arith),
          )
    ]

pub bit_xor-bit_xor : (a k : ℕ) → bit_xor (bit_xor a k) k ≡ a
bit_xor-bit_xor a k =
    let once : bit_xor a k ≡ digit_xor a a k = bit_xor-bitwise a k in
    let twice : bit_xor (bit_xor a k) k ≡ digit_xor (bit_xor a k) (bit_xor a k) k =
      bit_xor-bitwise (bit_xor a k) k in
    twice
    ∙ ap (λ (t : ℕ). digit_xor (bit_xor a k) t k) once
    ∙ digit_xor-digit_xor a (bit_xor a k) a k (omega arith) (omega (arith, once))
