-- ===== src/Base/ByteStrings.antt =====
-- Byte strings: lists of numbers, each below 256 where a statement says `AreBytes`.
use Prim.Native.Nat.{ℕ, ◌<◌}
use mathlib.Core.Path.{◌≡◌, refl}
use mathlib.Core.Logic.{◌↔◌}
use mathlib.Core.Bool.{Bool, true, false, ◌&&◌}
use mathlib.Core.List.{List, [], ◌∷◌, ◌++◌}
use native.Mathlib.Omega.{arith}
use pda_proxy.Base.Tests.{◌==◌}

abbrev pub Bytes : Type 0
Bytes = List ℕ

abbrev pub AreBytes : Bytes → Type 0
AreBytes [] = Unit
AreBytes (b ∷ bs) = (b < 256) × AreBytes bs

-- Rust's `==` on byte slices.
infix 50 ◌==ᵇ◌
abbrev pub ◌==ᵇ◌ : Bytes → Bytes → Bool
[] ==ᵇ [] = true
[] ==ᵇ (y ∷ ys) = false
(x ∷ xs) ==ᵇ [] = false
(x ∷ xs) ==ᵇ (y ∷ ys) = (x == y) && (xs ==ᵇ ys)

pub bytes_eq_iff : (xs ys : Bytes) → ((xs ==ᵇ ys) ≡ true) ↔ (xs ≡ ys)
bytes_eq_iff [] [] = (λ _. refl, λ _. refl)
bytes_eq_iff [] (y ∷ ys) = (λ h. cc, λ h. cc)
bytes_eq_iff (x ∷ xs) [] = (λ h. cc, λ h. cc)
bytes_eq_iff (x ∷ xs) (y ∷ ys) =
    (λ h. ground (arith, bytes_eq_iff xs ys), λ h. ground (arith, bytes_eq_iff xs ys))

pub bytes_eq_refl : (xs : Bytes) → (xs ==ᵇ xs) ≡ true
bytes_eq_refl xs = (bytes_eq_iff xs xs).1 refl

pub AreBytes-append : (xs ys : Bytes) → AreBytes xs → AreBytes ys → AreBytes (xs ++ ys)
AreBytes-append [] ys h k = k
AreBytes-append (x ∷ xs) ys h k = (h.0, AreBytes-append xs ys h.1 k)
