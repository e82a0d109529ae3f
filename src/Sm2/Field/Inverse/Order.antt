-- ===== src/Sm2/Field/Inverse/Order.antt =====
-- The inverse modulo n: its loops are the exponentiation with n - 2, word for word.
use native.Mathlib.Nat.{mul_assoc, pow-succ'}
use gm_ssl.Base.{ℕ, zero, suc, ◌+◌, ◌-◌, ◌*◌, ◌%◌, ◌^◌, ◌<◌, arith, ◌≡◌, ap, subst}
use gm_ssl.Base.{List}
use gm_ssl.Sm2.Limbs.Laws.{value}
use gm_ssl.Sm2.Modular
use gm_ssl.Sm2.Modular.Form.{Form, to_mont-Form, from_mont-Form}
use gm_ssl.Sm2.Modular.Exp.{top_bits_all, mont_mul-Power, base-Power, exp_word-Power}
use gm_ssl.Sm2.Field.{
  n_modulus, modn_mont_mul, modn_mont_sqr, modn_to_mont, modn_from_mont, set_bits, modn_mont_inv,
  modn_inv,
}
use gm_ssl.Sm2.Field.Constants.{order_n, n_inverse, n_modulus-IsModulus}
use gm_ssl.Sm2.Field.Laws.{ElementN, outcome_n}

module _ (x : ℕ) (a : List ℕ) (base : Form n_modulus x a) where
  abbrev PowerN : ℕ → List ℕ → Type 0
  PowerN k b = Form n_modulus (x ^ k) b

  times : (i j : ℕ) (b c : List ℕ) → PowerN i b → PowerN j c → PowerN (i + j) (modn_mont_mul b c)
  unfolding modn_mont_mul
  times i j b c = mont_mul-Power n_modulus n_inverse n_modulus-IsModulus x i j b c

  once : PowerN 1 a
  once = base-Power n_modulus n_inverse n_modulus-IsModulus x a base

  square : (i : ℕ) (b : List ℕ) → PowerN i b → PowerN (i + i) (modn_mont_sqr b)
  unfolding modn_mont_sqr
  square i b h = times i i b b h h

  set_bits-PowerN :
      (n i : ℕ) (t : List ℕ) → PowerN i t → PowerN ((i + 1) * 2 ^ n - 1) (set_bits n a t)
  unfolding set_bits
  set_bits-PowerN zero i t h =
      let e : i ≡ (i + 1) * 2 ^ 0 - 1 = omega arith in subst (λ k. PowerN k t) e h
  set_bits-PowerN (suc n) i t h =
      let t' = modn_mont_mul (modn_mont_sqr t) a in
      let next = times (i + i) 1 (modn_mont_sqr t) a (square i t h) once in
      let double : i + i + 1 + 1 ≡ (i + 1) * 2 = omega arith in
      let e : (i + i + 1 + 1) * 2 ^ n - 1 ≡ (i + 1) * 2 ^ suc n - 1 = omega (
        arith,
        mul_assoc (i + 1) 2 (2 ^ n),
        ap (λ k. (i + 1) * k) (pow-succ' 2 n),
        ap (λ k. k * 2 ^ n) double,
      ) in
      subst (λ k. PowerN k (set_bits n a t')) e (set_bits-PowerN n (i + i + 1) t' next)

  word-PowerN :
      (k w : ℕ) (t : List ℕ)
      → w < 2 ^ 64
      → PowerN k t
      → PowerN (k * 2 ^ 64 + w) (Modular.exp_word n_modulus 64 a w t)
  word-PowerN k w t h ht =
      subst (λ i. PowerN (k * 2 ^ 64 + i) (Modular.exp_word n_modulus 64 a w t)) (top_bits_all w h)
        (exp_word-Power n_modulus n_inverse n_modulus-IsModulus x a base 64 k w t h ht)

  modn_mont_inv-PowerN : PowerN (order_n - 2) (modn_mont_inv a)
  unfolding modn_mont_inv
  modn_mont_inv-PowerN =
      let ones = set_bits 30 a a in
      let p_ones : PowerN 0x7fffffff ones = set_bits-PowerN 30 1 a once in
      let t = set_bits 96 a (modn_mont_sqr ones) in
      let high : PowerN 0xfffffffeffffffffffffffffffffffff t =
        set_bits-PowerN 96 0xfffffffe (modn_mont_sqr ones) (square 0x7fffffff ones p_ones) in
      let t' = Modular.exp_word n_modulus 64 a 0x7203df6b21c6052b t in
      word-PowerN _ 0x53bbf40939d54121 t' (omega arith)
        (word-PowerN 0xfffffffeffffffffffffffffffffffff 0x7203df6b21c6052b t (omega arith) high)

-- The inverse of an element is its power with the exponent n - 2 modulo n, an element again.
pub modn_inv_lem :
    (a : List ℕ)
    → ElementN a
    → ElementN (modn_inv a) × (value (modn_inv a) ≡ value a ^ (order_n - 2) % order_n)
unfolding modn_inv modn_from_mont modn_to_mont
modn_inv_lem a ha =
    let M = n_modulus in
    let h = n_modulus-IsModulus in
    let a' = Modular.to_mont M a in
    let power = modn_mont_inv a' in
    outcome_n (value a ^ (order_n - 2)) (Modular.from_mont M power) (
      from_mont-Form M n_inverse h (value a ^ (order_n - 2)) power
        (modn_mont_inv-PowerN (value a) a' (to_mont-Form M n_inverse h a ha)))
