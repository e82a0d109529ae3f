-- ===== src/Sm9/Fp2/Laws.antt =====
-- The functions on the quadratic extension are its arithmetic, with u ^ 2 = -2.
use native.Mathlib.Nat.{add-mul, mul-add, mul_comm, mul_left_comm}
use gm_ssl.Base.{ℕ, ◌+◌, ◌-◌, ◌*◌, arith, ◌≡◌}
use gm_ssl.Sm9.Fp.{modp_add, modp_sub, modp_dbl, modp_mont_mul}
use gm_ssl.Sm9.Fp.Laws.{
  prime_p, Stands, shifted-Stands, modp_add-Stands, modp_sub-Stands, modp_dbl-Stands,
  modp_mont_mul-Stands,
}
use gm_ssl.Sm9.Fp2.{Fp2, fp2_add, fp2_sub, fp2_mul, fp2_sqr}

-- A pair of words in Montgomery form that stands for x0 + x1 u.
pub record StandsFor (x0 x1 : ℕ) (a : Fp2) : Type 0 where
  pub first : Stands x0 a.c0
  pub second : Stands x1 a.c1

module _ (x0 x1 y0 y1 : ℕ) where
  -- The products of sums, taken apart.
  sums : (x0 + x1) * (y0 + y1) ≡ x0 * y0 + x0 * y1 + (x1 * y0 + x1 * y1)
  sums = omega (arith, add-mul x0 x1 (y0 + y1), mul-add x0 y0 y1, mul-add x1 y0 y1)

  module _ (a b : Fp2) (ha : StandsFor x0 x1 a) (hb : StandsFor y0 y1 b) where
    pub fp2_add-StandsFor : StandsFor (x0 + y0) (x1 + y1) (fp2_add a b)
    unfolding fp2_add
    fp2_add-StandsFor = record {
      first = modp_add-Stands x0 y0 a.c0 b.c0 ha.first hb.first;
      second = modp_add-Stands x1 y1 a.c1 b.c1 ha.second hb.second;
    }

    pub fp2_sub-StandsFor :
        StandsFor (x0 + (prime_p - 1) * y0) (x1 + (prime_p - 1) * y1) (fp2_sub a b)
    unfolding fp2_sub
    fp2_sub-StandsFor = record {
      first = modp_sub-Stands x0 y0 a.c0 b.c0 ha.first hb.first;
      second = modp_sub-Stands x1 y1 a.c1 b.c1 ha.second hb.second;
    }

    -- If `a` stands for x0 + x1 u and `b` for y0 + y1 u, `fp2_mul a b` stands for their product with
    -- u ^ 2 = -2, where p - 2 is -2; its coordinates are reduced.
    pub fp2_mul-StandsFor :
        StandsFor (x0 * y0 + (prime_p - 2) * (x1 * y1)) (x0 * y1 + x1 * y0) (fp2_mul a b)
    unfolding fp2_mul
    fp2_mul-StandsFor =
        let sa = modp_add a.c0 a.c1 in
        let sb = modp_add b.c0 b.c1 in
        let t2 = modp_mont_mul sa sb in
        let t0 = modp_mont_mul a.c0 b.c0 in
        let t1 = modp_mont_mul a.c1 b.c1 in
        let h2 =
          modp_mont_mul-Stands (x0 + x1) (y0 + y1) sa sb
            (modp_add-Stands x0 x1 a.c0 a.c1 ha.first ha.second)
            (modp_add-Stands y0 y1 b.c0 b.c1 hb.first hb.second) in
        let h0 = modp_mont_mul-Stands x0 y0 a.c0 b.c0 ha.first hb.first in
        let h1 = modp_mont_mul-Stands x1 y1 a.c1 b.c1 ha.second hb.second in
        let d0 =
          modp_sub-Stands (x0 * y0) (x1 * y1 + x1 * y1) t0 (modp_dbl t1) h0
            (modp_dbl-Stands (x1 * y1) t1 h1) in
        let d1 = modp_sub-Stands ((x0 + x1) * (y0 + y1)) (x0 * y0) t2 t0 h2 h0 in
        let d2 =
          modp_sub-Stands ((x0 + x1) * (y0 + y1) + (prime_p - 1) * (x0 * y0)) (x1 * y1)
            (modp_sub t2 t0) t1 d1 h1 in
        record {
          first = shifted-Stands _ _ (x1 * y1) (modp_sub t0 (modp_dbl t1)) (omega arith) d0;
          second =
              shifted-Stands _ _ (x0 * y0 + x1 * y1) (modp_sub (modp_sub t2 t0) t1)
                (omega (arith, sums)) d2;
        }

module _ (x0 x1 : ℕ) (a : Fp2) (h : StandsFor x0 x1 a) where
  -- The square is the product of an element with itself.
  pub fp2_sqr-StandsFor :
      StandsFor (x0 * x0 + (prime_p - 2) * (x1 * x1)) (x0 * x1 + x1 * x0) (fp2_sqr a)
  unfolding fp2_sqr
  fp2_sqr-StandsFor =
      let r1 = modp_mont_mul a.c0 a.c1 in
      let s = modp_add a.c0 a.c1 in
      let d = modp_sub a.c0 (modp_dbl a.c1) in
      let h1 = modp_mont_mul-Stands x0 x1 a.c0 a.c1 h.first h.second in
      let hs = modp_add-Stands x0 x1 a.c0 a.c1 h.first h.second in
      let hd =
        modp_sub-Stands x0 (x1 + x1) a.c0 (modp_dbl a.c1) h.first
          (modp_dbl-Stands x1 a.c1 h.second) in
      let m = modp_mont_mul s d in
      let hm = modp_mont_mul-Stands (x0 + x1) (x0 + (prime_p - 1) * (x1 + x1)) s d hs hd in
      let hr =
        modp_add-Stands ((x0 + x1) * (x0 + (prime_p - 1) * (x1 + x1))) (x0 * x1) m r1 hm h1 in
      let e0 = sums x0 x1 x0 ((prime_p - 1) * (x1 + x1)) in
      let e1 : x0 * ((prime_p - 1) * (x1 + x1)) ≡ (prime_p - 1) * (2 * (x0 * x1)) =
        omega (arith, mul_left_comm x0 (prime_p - 1) (x1 + x1), mul-add x0 x1 x1) in
      let e2 : x1 * ((prime_p - 1) * (x1 + x1)) ≡ (prime_p - 1) * (2 * (x1 * x1)) =
        omega (arith, mul_left_comm x1 (prime_p - 1) (x1 + x1), mul-add x1 x1 x1) in
      record {
        first =
            shifted-Stands _ _ (2 * (x0 * x1) + x1 * x1) (modp_add m r1)
              (omega (arith, e0, e1, e2, mul_comm x1 x0)) hr;
        second =
            shifted-Stands _ _ 0 (modp_dbl r1) (omega (arith, mul_comm x1 x0))
              (modp_dbl-Stands (x0 * x1) r1 h1);
      }
