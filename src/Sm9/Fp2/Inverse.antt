-- ===== src/Sm9/Fp2/Inverse.antt =====
-- The inversion in the extension, in its three branches.
use gm_ssl.Base.{ℕ, ◌+◌, ◌-◌, ◌*◌, ◌^◌, arith, ◌≡◌, ◌≢◌, refl}
use gm_ssl.Sm2.Limbs.Laws.{value, IsWords}
use gm_ssl.Sm2.Limbs.Zero.{z256_is_zero-zero, z256_is_zero-suc}
use gm_ssl.Sm9.Fp.{p_modulus, modp_dbl, modp_mont_inv}
use gm_ssl.Sm9.Fp.Laws.{prime_p, Stands, modp_dbl-Stands, modp_mont_inv-Stands}
use gm_ssl.Sm9.Fp2.{Fp2, zero_words, fp2_inv}
use gm_ssl.Sm9.Fp2.Laws.{StandsFor}
use gm_ssl.Sm9.Fp2.Loose.{norm, Loose, LooseSecond, modp_neg-Loose, inv_both-LooseSecond}

zero_words-IsWords : IsWords 4 zero_words
zero_words-IsWords = record {
  words = (omega arith, (omega arith, (omega arith, (omega arith, tt))));
  size = refl;
}

zero_words-Stands : Stands 0 zero_words
unfolding value p_modulus
zero_words-Stands = record {
  element = record { words = zero_words-IsWords; reduced = omega arith };
  residue = refl;
}

zero_words-Loose : Loose 0 zero_words
unfolding value
zero_words-Loose = record { words = zero_words-IsWords; bounded = omega arith; same = refl }

module _ (x0 x1 : ℕ) (a : Fp2) (ha : StandsFor x0 x1 a) where
  -- If `a` stands for x0 + x1 u and neither coordinate is zero, `fp2_inv a` stands for x0 - x1 u times
  -- the power p - 2 of the norm x0 ^ 2 + 2 x1 ^ 2. The second coordinate ends with a negation, and is
  -- only known to be at most p.
  pub fp2_inv-LooseSecond :
      value a.c0 ≢ 0
      → value a.c1 ≢ 0
      → LooseSecond
          (x0 * norm x0 x1 ^ (prime_p - 2))
          ((prime_p - 1) * (x1 * norm x0 x1 ^ (prime_p - 2)))
          (fp2_inv a)
  unfolding fp2_inv
  fp2_inv-LooseSecond n0 n1 =
      rw
        (
          z256_is_zero-suc a.c0 ha.first.element.words.words n0,
          z256_is_zero-suc a.c1 ha.second.element.words.words n1,
        )
        (inv_both-LooseSecond x0 x1 a ha)

  pub fp2_inv_real :
      value a.c0 ≢ 0 → value a.c1 ≡ 0 → LooseSecond (x0 ^ (prime_p - 2)) 0 (fp2_inv a)
  unfolding fp2_inv
  fp2_inv_real n0 e1 =
      rw (z256_is_zero-suc a.c0 ha.first.element.words.words n0, z256_is_zero-zero a.c1 e1)
        (record { first = modp_mont_inv-Stands x0 a.c0 ha.first; second = zero_words-Loose })

  pub fp2_inv_imaginary :
      value a.c0 ≡ 0 → LooseSecond 0 ((prime_p - 1) * ((x1 + x1) ^ (prime_p - 2))) (fp2_inv a)
  unfolding fp2_inv
  fp2_inv_imaginary e0 =
      let double = modp_dbl-Stands x1 a.c1 ha.second in
      rw (z256_is_zero-zero a.c0 e0) (record {
        first = zero_words-Stands;
        second =
            modp_neg-Loose ((x1 + x1) ^ (prime_p - 2)) (modp_mont_inv (modp_dbl a.c1))
              (modp_mont_inv-Stands (x1 + x1) (modp_dbl a.c1) double);
      })
