-- ===== src/Sm9/Fp2/Loose.antt =====
-- The functions that end with a negation. sm9_z256_modp_neg takes 0 to p itself, so a negated
-- coordinate is only known to be at most p.
use native.Mathlib.Nat.{add-mul, mul-add, mul_assoc, mul_comm}
use gm_ssl.Base.{ℕ, ◌+◌, ◌-◌, ◌*◌, ◌%◌, ◌^◌, ◌≤◌, arith, ◌≡◌, refl, sym, ap, ◌∙◌}
use gm_ssl.Base.{List}
use gm_ssl.Sm2.Limbs.Laws.{value, IsWords}
use gm_ssl.Sm2.Modular.Residues.{Same, multiple-Same, mul-Same}
use gm_ssl.Sm2.Modular.Half.{mod_neg_lem}
use gm_ssl.Sm2.Modular.Form.{residue-Same}
use gm_ssl.Sm9.Fp.{
  p_modulus, modp_add, modp_sub, modp_dbl, modp_neg, modp_mont_mul, modp_mont_sqr, modp_mont_inv,
}
use gm_ssl.Sm9.Fp.Laws.{
  prime_p, p_inverse, p_modulus-value, p_modulus-IsModulus, Stands, shifted-Stands, modp_add-Stands,
  modp_sub-Stands, modp_dbl-Stands, modp_mont_mul-Stands, modp_mont_sqr-Stands,
  modp_mont_inv-Stands,
}
use gm_ssl.Sm9.Fp2.{Fp2, fp2_mul, fp2_mul_u, fp2_sqr_u, fp2_a_mul_u, inv_both}
use gm_ssl.Sm9.Fp2.Laws.{StandsFor, fp2_mul-StandsFor}

-- Four words that stand for a number in the field and are at most p.
pub record Loose (x : ℕ) (a : List ℕ) : Type 0 where
  pub words : IsWords 4 a
  pub bounded : value a ≤ prime_p
  pub same : Same prime_p (value a) (x * 2 ^ 256)

pub modp_neg-Loose : (x : ℕ) (a : List ℕ) → Stands x a → Loose ((prime_p - 1) * x) (modp_neg a)
unfolding modp_neg
modp_neg-Loose x a h =
    let n = mod_neg_lem p_modulus p_inverse p_modulus-IsModulus a h.element in
    let same : Same prime_p (value a) (x * 2 ^ 256) =
      ap (λ m. value a % m) (sym p_modulus-value)
      ∙ residue-Same p_modulus (x * 2 ^ 256) a h
      ∙ ap (λ m. (x * 2 ^ 256) % m) p_modulus-value in
    let minus : value (modp_neg a) + prime_p * value a ≡ (prime_p - 1) * value a + prime_p * 1 =
      omega (arith, n.1, p_modulus-value) in
    record {
      words = n.0;
      bounded = omega (arith, n.1, p_modulus-value);
      same =
          sym (multiple-Same prime_p (value (modp_neg a)) (value a))
          ∙ ap (λ k. k % prime_p) minus
          ∙ multiple-Same prime_p ((prime_p - 1) * value a) 1
          ∙ mul-Same prime_p (prime_p - 1) (prime_p - 1) (value a) (x * 2 ^ 256) refl same
          ∙ ap (λ k. k % prime_p) (omega arith);
    }

-- A pair whose first coordinate, or whose second, ends with a negation.
pub record LooseFirst (x0 x1 : ℕ) (a : Fp2) : Type 0 where
  pub first : Loose x0 a.c0
  pub second : Stands x1 a.c1

pub record LooseSecond (x0 x1 : ℕ) (a : Fp2) : Type 0 where
  pub first : Stands x0 a.c0
  pub second : Loose x1 a.c1

-- The number whose inverse the inversion takes.
abbrev pub norm : ℕ → ℕ → ℕ
norm x0 x1 = x0 * x0 + (x1 * x1 + x1 * x1)

module _ (x0 x1 : ℕ) (a : Fp2) (ha : StandsFor x0 x1 a) where
  pub fp2_a_mul_u-LooseFirst : LooseFirst ((prime_p - 1) * (x1 + x1)) x0 (fp2_a_mul_u a)
  unfolding fp2_a_mul_u
  fp2_a_mul_u-LooseFirst = record {
    first = modp_neg-Loose (x1 + x1) (modp_dbl a.c1) (modp_dbl-Stands x1 a.c1 ha.second);
    second = ha.first;
  }

  -- The product with u is the product, turned by u.
  pub fp2_mul_u-LooseFirst :
      (y0 y1 : ℕ) (b : Fp2)
      → StandsFor y0 y1 b
      → LooseFirst
          ((prime_p - 1) * (x0 * y1 + x1 * y0 + (x0 * y1 + x1 * y0)))
          (x0 * y0 + (prime_p - 2) * (x1 * y1))
          (fp2_mul_u a b)
  unfolding fp2_mul_u fp2_mul
  fp2_mul_u-LooseFirst y0 y1 b hb =
      let product = fp2_mul-StandsFor x0 x1 y0 y1 a b ha hb in
      let z = x0 * y1 + x1 * y0 in
      record {
        first =
            modp_neg-Loose (z + z) (modp_dbl (fp2_mul a b).c1)
              (modp_dbl-Stands z (fp2_mul a b).c1 product.second);
        second = product.first;
      }

  -- The square, turned by u.
  pub fp2_sqr_u-LooseFirst :
      LooseFirst
        ((prime_p - 1) * (4 * (x0 * x1)))
        (x0 * x0 + (prime_p - 2) * (x1 * x1))
        (fp2_sqr_u a)
  unfolding fp2_sqr_u
  fp2_sqr_u-LooseFirst =
      let t0 = modp_mont_mul a.c0 a.c1 in
      let t1 = modp_add a.c0 a.c1 in
      let d = modp_sub a.c0 a.c1 in
      let t2 = modp_sub d a.c1 in
      let h0 = modp_mont_mul-Stands x0 x1 a.c0 a.c1 ha.first ha.second in
      let h1 = modp_add-Stands x0 x1 a.c0 a.c1 ha.first ha.second in
      let v = x0 + (prime_p - 1) * x1 in
      let h2 =
        modp_sub-Stands v x1 d a.c1 (modp_sub-Stands x0 x1 a.c0 a.c1 ha.first ha.second)
          ha.second in
      let w = v + (prime_p - 1) * x1 in
      let hm = modp_mont_mul-Stands w (x0 + x1) t2 t1 h2 h1 in
      let hr = modp_add-Stands (w * (x0 + x1)) (x0 * x1) (modp_mont_mul t2 t1) t0 hm h0 in
      let twice = modp_dbl-Stands (x0 * x1) t0 h0 in
      let four = modp_dbl-Stands (x0 * x1 + x0 * x1) (modp_dbl t0) twice in
      let times4 : x0 * x1 + x0 * x1 + (x0 * x1 + x0 * x1) ≡ 4 * (x0 * x1) + prime_p * 0 =
        omega arith in
      let flat : w ≡ x0 + (prime_p - 1) * (2 * x1) = omega arith in
      let parts : w * (x0 + x1)
          ≡ x0 * x0 + x0 * x1 + (prime_p - 1) * (2 * (x0 * x1) + 2 * (x1 * x1)) =
        ap (λ k. k * (x0 + x1)) flat
        ∙ omega (
          arith,
          add-mul x0 ((prime_p - 1) * (2 * x1)) (x0 + x1),
          mul-add x0 x0 x1,
          mul_assoc (prime_p - 1) (2 * x1) (x0 + x1),
          mul_assoc 2 x1 (x0 + x1),
          mul-add x1 x0 x1,
          mul_comm x1 x0,
        ) in
      record {
        first =
            modp_neg-Loose (4 * (x0 * x1)) (modp_dbl (modp_dbl t0))
              (shifted-Stands _ (4 * (x0 * x1)) 0 (modp_dbl (modp_dbl t0)) times4 four);
        second =
            shifted-Stands _ _ (2 * (x0 * x1) + x1 * x1) (modp_add (modp_mont_mul t2 t1) t0)
              (omega (arith, parts)) hr;
      }

  -- The inverse is the conjugate, times the norm to the power p - 2.
  pub inv_both-LooseSecond :
      LooseSecond
        (x0 * norm x0 x1 ^ (prime_p - 2))
        ((prime_p - 1) * (x1 * norm x0 x1 ^ (prime_p - 2)))
        (inv_both a)
  unfolding inv_both
  inv_both-LooseSecond =
      let s0 = modp_mont_sqr a.c0 in
      let s1 = modp_mont_sqr a.c1 in
      let n = modp_add s0 (modp_dbl s1) in
      let hn =
        modp_add-Stands (x0 * x0) (x1 * x1 + x1 * x1) s0 (modp_dbl s1)
          (modp_mont_sqr-Stands x0 a.c0 ha.first)
          (modp_dbl-Stands (x1 * x1) s1 (modp_mont_sqr-Stands x1 a.c1 ha.second)) in
      let k = modp_mont_inv n in
      let hk = modp_mont_inv-Stands (norm x0 x1) n hn in
      record {
        first = modp_mont_mul-Stands x0 (norm x0 x1 ^ (prime_p - 2)) a.c0 k ha.first hk;
        second =
            modp_neg-Loose (x1 * norm x0 x1 ^ (prime_p - 2)) (modp_mont_mul a.c1 k)
              (modp_mont_mul-Stands x1 (norm x0 x1 ^ (prime_p - 2)) a.c1 k ha.second hk);
      }
