-- ===== src/Base/Bits/Step.antt =====
-- The native operations mean `bitwise`, which goes over the binary digits with a bound on their
-- number. Any bound that is large enough gives the same, so each operation has a law that splits
-- off the lowest digits.
use Prim.Native.Nat.{ℕ, zero, suc, ◌+◌, ◌*◌, ◌/◌, ◌%◌, ◌≤◌, ◌<◌, min, max, digits, bitwise}
use Prim.Native.Nat.{
  bit_and, bit_or, bit_xor, differ, bit_and-bitwise, bit_or-bitwise, bit_xor-bitwise,
}
use mathlib.Core.Path.{◌≡◌, refl, ◌∙◌}
use native.Mathlib.Omega.{arith}
use gm_ssl.Base.Tests.{◌==◌, ==→eq, ==→ne, Bool-cases}
use mathlib.Core.Logic.{inl, inr}

module _ (end : ℕ → ℕ) (op : ℕ → ℕ → ℕ) where
  -- One more than enough changes nothing.
  bound_up : (y bound x : ℕ) → x ≤ bound → digits end op (suc bound) x y ≡ digits end op bound x y
  bound_up y zero zero h = refl
  bound_up y zero (suc x) h = absurd (omega arith)
  bound_up y (suc bound) zero h = refl
  bound_up y (suc bound) (suc x) h = rw (bound_up (y / 2) bound (suc x / 2) (omega arith))

  bound_enough : (y bound x : ℕ) → x ≤ bound → digits end op bound x y ≡ bitwise end op x y
  bound_enough y zero zero h = refl
  bound_enough y zero (suc x) h = absurd (omega arith)
  bound_enough y (suc bound) x h = elim (Bool-cases (x == suc bound)) [
    | inl exact ↦ rw (==→eq _ _ exact) refl
    | inr above ↦
        let lower : x ≤ bound = omega (arith, ==→ne _ _ above) in
        bound_up y bound x lower ∙ bound_enough y bound x lower
  ]

  bitwise_lowest :
      (x y : ℕ)
      → bitwise end op (suc x) y ≡ 2 * bitwise end op (suc x / 2) (y / 2) + op (suc x % 2) (y % 2)
  bitwise_lowest x y = omega (arith, bound_enough (y / 2) x (suc x / 2) (omega arith))

-- The sum of two binary digits, without the carry.
abbrev pub digit_sum : ℕ → ℕ → ℕ
digit_sum x y = (x + y) % 2

pub bit_or_lowest : (x y : ℕ) → bit_or x y ≡ 2 * bit_or (x / 2) (y / 2) + max (x % 2) (y % 2)
bit_or_lowest zero y = simp bit_or-bitwise (omega arith)
bit_or_lowest (suc x) y = simp bit_or-bitwise (bitwise_lowest (λ rest. rest) max x y)

pub bit_and_lowest : (x y : ℕ) → bit_and x y ≡ 2 * bit_and (x / 2) (y / 2) + min (x % 2) (y % 2)
bit_and_lowest zero y = simp bit_and-bitwise (omega arith)
bit_and_lowest (suc x) y = simp bit_and-bitwise (bitwise_lowest (λ rest. 0) min x y)

differ-digits : (x y : ℕ) → x < 2 → y < 2 → differ x y ≡ digit_sum x y
differ-digits zero y p q = omega arith
differ-digits (suc zero) zero p q = refl
differ-digits (suc zero) (suc zero) p q = refl
differ-digits (suc zero) (suc (suc y)) p q = absurd (omega arith)
differ-digits (suc (suc x)) y p q = absurd (omega arith)

pub bit_xor_lowest :
    (x y : ℕ) → bit_xor x y ≡ 2 * bit_xor (x / 2) (y / 2) + digit_sum (x % 2) (y % 2)
bit_xor_lowest zero y = simp bit_xor-bitwise (omega arith)
bit_xor_lowest (suc x) y = omega (
  arith,
  bit_xor-bitwise (suc x) y,
  bit_xor-bitwise (suc x / 2) (y / 2),
  bitwise_lowest (λ rest. rest) differ x y,
  differ-digits (suc x % 2) (y % 2) (omega arith) (omega arith),
)
