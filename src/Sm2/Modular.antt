-- ===== src/Sm2/Modular.antt =====
-- The arithmetic of src/sm2_z256.c modulo p and modulo n. The source has each function twice, once
-- with the constants of p and once with those of n; here the constants are a record.
pub mod Residues
pub mod Laws
pub mod Mont
pub mod Half
pub mod Form
pub mod Exp
use Prim.Native.Nat.{Ordering}
use gm_ssl.Base.{
  ℕ, zero, suc, ◌+◌, ◌*◌, ◌/◌, ◌%◌, ◌^◌, List, [], ◌∷◌, bit_and, bit_or, u64, ◌<<<◌, ◌>>>◌,
}
use gm_ssl.Base.{take, drop, reverse, get_or, if◌then◌else◌, ◌==◌, Bool, true, false}
use gm_ssl.Sm2.Limbs.{z256_add, z256_sub, z512_add, z256_cmp}
use gm_ssl.Sm2.Mul.{z256_mul}

-- The constants: the modulus, 2 ^ 256 less the modulus, the negated inverse of the modulus, and
-- 2 ^ 512, reduced.
pub record Modulus : Type 0 where
  pub modulus : List ℕ
  pub neg : List ℕ
  pub prime : List ℕ
  pub square : List ℕ

-- `SM2_Z256_ONE`.
abbrev pub one : List ℕ
one = 1 ∷ 0 ∷ 0 ∷ 0 ∷ []

-- A comparison `>= 0`.
abbrev pub at_least : Ordering → Bool
at_least Ordering.lt = false
at_least Ordering.eq = true
at_least Ordering.gt = true

-- The words moved to the right by one bit below the bit `c`.
unfoldable pub half_words : ℕ → List ℕ → List ℕ
half_words c [] = []
half_words c (r ∷ []) = bit_or (r >>> 1) (u64 (bit_and c 1 <<< 63)) ∷ []
half_words c (r ∷ s ∷ rs) = bit_or (r >>> 1) (u64 (bit_and s 1 <<< 63)) ∷ half_words c (s ∷ rs)

module _ (M : Modulus) where
  -- The end of an addition and of a product: what is left of a number and its carry.
  unfoldable pub fit : List ℕ × ℕ → List ℕ
  fit (r, c) =
      if c == 0
      then if at_least (z256_cmp r M.modulus) then (z256_sub r M.modulus).0 else r
      else (z256_add r M.neg).0

  unfoldable pub mod_add : List ℕ → List ℕ → List ℕ
  mod_add a b = fit (z256_add a b)

  unfoldable pub mod_sub : List ℕ → List ℕ → List ℕ
  mod_sub a b = let (r, c) = z256_sub a b in if c == 0 then r else (z256_sub r M.neg).0

  unfoldable pub mod_neg : List ℕ → List ℕ
  mod_neg a = (z256_sub M.modulus a).0

  unfoldable pub mod_haf : List ℕ → List ℕ
  mod_haf a =
      if bit_and (get_or a 0 0) 1 == 0
      then half_words 0 a
      else let (r, c) = z256_add a M.modulus in half_words c r

  unfoldable pub mont_mul : List ℕ → List ℕ → List ℕ
  mont_mul a b =
      let z = z256_mul a b in
      let t = z256_mul (take 4 z) M.prime in
      let t' = z256_mul (take 4 t) M.modulus in let (z', c) = z512_add z t' in fit (drop 4 z', c)

  unfoldable pub mont_sqr : List ℕ → List ℕ
  mont_sqr a = mont_mul a a

  unfoldable pub from_mont : List ℕ → List ℕ
  from_mont a = mont_mul a one

  unfoldable pub to_mont : List ℕ → List ℕ
  to_mont a = mont_mul a M.square

  -- One bit of an exponent, the top bit of `w`.
  unfoldable pub exp_bit : List ℕ → ℕ → List ℕ → List ℕ
  exp_bit a w t = if bit_and w 0x8000000000000000 == 0 then mont_sqr t else mont_mul (mont_sqr t) a

  -- The rounds that are left of one word, and then of the words, the high one first.
  unfoldable pub exp_word : ℕ → List ℕ → ℕ → List ℕ → List ℕ
  exp_word zero a w t = t
  exp_word (suc n) a w t = exp_word n a (u64 (w <<< 1)) (exp_bit a w t)

  unfoldable pub exp_words : List ℕ → List ℕ → List ℕ → List ℕ
  exp_words a [] t = t
  exp_words a (w ∷ ws) t = exp_words a ws (exp_word 64 a w t)

  unfoldable pub mont_exp : List ℕ → List ℕ → List ℕ
  mont_exp a e = exp_words a (reverse e) M.neg
