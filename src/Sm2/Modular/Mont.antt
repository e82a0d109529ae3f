-- ===== src/Sm2/Modular/Mont.antt =====
-- Montgomery multiplication, for any record of constants that fit each other.
use native.Mathlib.Nat.{mul_comm, mul_right_comm, mul-le-mul_left, mul-le-mul_right}
use gm_ssl.Base.{ℕ, ◌+◌, ◌*◌, ◌%◌, ◌^◌, ◌≤◌, ◌<◌, arith, ◌≡◌, sym, ap, ◌∙◌}
use gm_ssl.Base.{List, take, drop}
use gm_ssl.Sm2.Limbs.{z512_add}
use gm_ssl.Sm2.Limbs.Laws.{value, IsWords}
use gm_ssl.Sm2.Limbs.Words.{z512_add_lem, value_lt, low_high}
use gm_ssl.Sm2.Mul.{z256_mul}
use gm_ssl.Sm2.Mul.Laws.{z256_mul_lem}
use gm_ssl.Sm2.Modular.{Modulus, mont_mul}
use gm_ssl.Sm2.Modular.Residues.{Same, multiple-Same, undo, cancel, reduction}
use gm_ssl.Sm2.Modular.Laws.{IsModulus, Element, Result, fit_lem}

module _ (M : Modulus) (inv : ℕ) (fits : IsModulus M inv) where
  -- The bound that lets one correction at the end do.
  small :
      (a b m tl v : ℕ)
      → a < m
      → b < 2 ^ 256
      → tl < 2 ^ 256
      → 2 ^ 256 * v ≡ a * b + tl * m
      → v < 2 * m
  small a b m tl v ha hb ht e =
      let first : a * b ≤ a * 2 ^ 256 = mul-le-mul_left a (omega arith) in
      let second : tl * m ≤ 2 ^ 256 * m = mul-le-mul_right m (omega arith) in omega arith

  -- What is left, before the correction, is the product times the inverse of 2 ^ 256.
  scaled :
      (z tl v : ℕ) → 2 ^ 256 * v ≡ z + tl * value M.modulus → Same (value M.modulus) v (z * inv)
  scaled z tl v e =
      let m = value M.modulus in
      cancel m (2 ^ 256) inv (value M.prime) v (z * inv) fits.inverts (
        ap (λ n. n % m) (mul_comm v (2 ^ 256) ∙ e ∙ ap (λ n. z + n) (mul_comm tl m))
        ∙ multiple-Same m z tl
        ∙ sym (undo m (2 ^ 256) inv (value M.prime) z fits.inverts)
        ∙ ap (λ n. n % m) (mul_right_comm z (2 ^ 256) inv))

  pub mont_mul_lem :
      (a b : List ℕ)
      → Element M a
      → IsWords 4 b
      → Result M (value a * value b * inv) (mont_mul M a b)
  unfolding mont_mul
  mont_mul_lem a b ha hb =
      let m = value M.modulus in
      let z = z256_mul a b in
      let z_lem = z256_mul_lem a b ha.words hb in
      let z_parts = low_high z z_lem.0 in
      let t = z256_mul (take 4 z) M.prime in
      let t_lem = z256_mul_lem (take 4 z) M.prime z_parts.1 fits.prime_words in
      let t_parts = low_high t t_lem.0 in
      let u = z256_mul (take 4 t) M.modulus in
      let u_lem = z256_mul_lem (take 4 t) M.modulus t_parts.1 fits.modulus_words in
      let s = z512_add z u in
      let s_lem = z512_add_lem z u z_lem.0 u_lem.0 in
      let s_parts = low_high s.0 s_lem.0 in
      let v = value (drop 4 s.0) + 2 ^ 256 * s.1 in
      let low : value (take 4 t) + 2 ^ 256 * value (drop 4 t) ≡ value (take 4 z) * value M.prime =
        sym t_parts.0 ∙ t_lem.1 in
      let sum : value (take 4 s.0) + 2 ^ 256 * v
          ≡ value (take 4 z) + 2 ^ 256 * value (drop 4 z) + value (take 4 t) * m =
        omega (arith, s_parts.0, s_lem.2, z_parts.0, u_lem.1) in
      let zero_low = value_lt (take 4 s.0) s_parts.1 in
      let high : 2 ^ 256 * v ≡ value a * value b + value (take 4 t) * m =
        reduction m (value M.prime) inv (value (take 4 z)) (value (drop 4 z)) (value (take 4 t))
          (value (drop 4 t)) (value (take 4 s.0)) v fits.inverts low sum zero_low
        ∙ ap (λ n. n + value (take 4 t) * m) (sym z_parts.0 ∙ z_lem.1) in
      let lt : v < 2 * m =
        small (value a) (value b) m (value (take 4 t)) v ha.reduced (value_lt b hb)
          (value_lt (take 4 t) t_parts.1) high in
      let r = fit_lem M inv fits (drop 4 s.0) s.1 s_parts.2 s_lem.1 lt in
      record {
        element = r.element;
        residue = r.residue ∙ scaled (value a * value b) (value (take 4 t)) v high;
      }
