-- ===== src/Sm9/Fp2.antt =====
-- The quadratic extension of SM9's prime field: sm9_z256_fp2_add to sm9_z256_fp2_div of
-- src/sm9_z256.c. An element is c0 + c1 u with u ^ 2 = -2.
pub mod Laws
pub mod Bytes
pub mod Loose
pub mod Inverse
use gm_ssl.Base.{
  ℕ, List, [], ◌∷◌, ◌++◌, Option, none, some, ◌>>=◌, take, drop, if◌then◌else◌, ◌==◌, Bool, true,
  false,
}
use gm_ssl.Sm2.Modular.{at_least}
use gm_ssl.Sm2.Limbs.{z256_cmp, z256_is_zero}
use gm_ssl.Sm2.Bytes.{z256_from_bytes, z256_to_bytes}
use gm_ssl.Sm9.Fp.{
  p_modulus, modp_add, modp_sub, modp_dbl, modp_tri, modp_haf, modp_neg, modp_mont_mul,
  modp_mont_sqr, modp_mont_inv, modp_to_mont, modp_from_mont,
}

pub record Fp2 : Type 0 where
  pub c0 : List ℕ
  pub c1 : List ℕ

abbrev pub zero_words : List ℕ
zero_words = 0 ∷ 0 ∷ 0 ∷ 0 ∷ []

unfoldable pub fp2_add : Fp2 → Fp2 → Fp2
fp2_add a b = record { c0 = modp_add a.c0 b.c0; c1 = modp_add a.c1 b.c1 }

unfoldable pub fp2_dbl : Fp2 → Fp2
fp2_dbl a = record { c0 = modp_dbl a.c0; c1 = modp_dbl a.c1 }

unfoldable pub fp2_tri : Fp2 → Fp2
fp2_tri a = record { c0 = modp_tri a.c0; c1 = modp_tri a.c1 }

unfoldable pub fp2_sub : Fp2 → Fp2 → Fp2
fp2_sub a b = record { c0 = modp_sub a.c0 b.c0; c1 = modp_sub a.c1 b.c1 }

unfoldable pub fp2_neg : Fp2 → Fp2
fp2_neg a = record { c0 = modp_neg a.c0; c1 = modp_neg a.c1 }

unfoldable pub fp2_haf : Fp2 → Fp2
fp2_haf a = record { c0 = modp_haf a.c0; c1 = modp_haf a.c1 }

unfoldable pub fp2_a_mul_u : Fp2 → Fp2
fp2_a_mul_u a = record { c0 = modp_neg (modp_dbl a.c1); c1 = a.c0 }

-- Three products of the coordinates.
unfoldable pub fp2_mul : Fp2 → Fp2 → Fp2
fp2_mul a b =
    let t2 = modp_mont_mul (modp_add a.c0 a.c1) (modp_add b.c0 b.c1) in
    let t0 = modp_mont_mul a.c0 b.c0 in
    let t1 = modp_mont_mul a.c1 b.c1 in
    record { c0 = modp_sub t0 (modp_dbl t1); c1 = modp_sub (modp_sub t2 t0) t1 }

unfoldable pub fp2_mul_u : Fp2 → Fp2 → Fp2
fp2_mul_u a b =
    let t2 = modp_mont_mul (modp_add a.c0 a.c1) (modp_add b.c0 b.c1) in
    let t0 = modp_mont_mul a.c0 b.c0 in
    let t1 = modp_mont_mul a.c1 b.c1 in
    record {
      c0 = modp_neg (modp_dbl (modp_sub (modp_sub t2 t0) t1));
      c1 = modp_sub t0 (modp_dbl t1);
    }

unfoldable pub fp2_mul_fp : Fp2 → List ℕ → Fp2
fp2_mul_fp a k = record { c0 = modp_mont_mul a.c0 k; c1 = modp_mont_mul a.c1 k }

unfoldable pub fp2_sqr : Fp2 → Fp2
fp2_sqr a =
    let r1 = modp_mont_mul a.c0 a.c1 in
    let c0 = modp_add a.c0 a.c1 in
    let c1 = modp_sub a.c0 (modp_dbl a.c1) in
    record { c0 = modp_add (modp_mont_mul c0 c1) r1; c1 = modp_dbl r1 }

unfoldable pub fp2_sqr_u : Fp2 → Fp2
fp2_sqr_u a =
    let t0 = modp_mont_mul a.c0 a.c1 in
    let t1 = modp_add a.c0 a.c1 in
    let t2 = modp_sub (modp_sub a.c0 a.c1) a.c1 in
    record { c0 = modp_neg (modp_dbl (modp_dbl t0)); c1 = modp_add (modp_mont_mul t2 t1) t0 }

-- The inverse where no coordinate is zero.
unfoldable pub inv_both : Fp2 → Fp2
inv_both a =
    let k = modp_mont_inv (modp_add (modp_mont_sqr a.c0) (modp_dbl (modp_mont_sqr a.c1))) in
    record { c0 = modp_mont_mul a.c0 k; c1 = modp_neg (modp_mont_mul a.c1 k) }

unfoldable pub fp2_inv : Fp2 → Fp2
fp2_inv a =
    if z256_is_zero a.c0 == 0
    then (if z256_is_zero a.c1 == 0
        then inv_both a
        else record { c0 = modp_mont_inv a.c0; c1 = zero_words })
    else record { c0 = zero_words; c1 = modp_neg (modp_mont_inv (modp_dbl a.c1)) }

unfoldable pub fp2_div : Fp2 → Fp2 → Fp2
fp2_div a b = fp2_mul a (fp2_inv b)

unfoldable pub fp2_to_bytes : Fp2 → List ℕ
fp2_to_bytes a = z256_to_bytes (modp_from_mont a.c1) ++ z256_to_bytes (modp_from_mont a.c0)

-- A coordinate that is read, `none` where it is not below p.
unfoldable pub coordinate : List ℕ → Option (List ℕ)
coordinate input =
    let r = z256_from_bytes input in
    if at_least (z256_cmp r p_modulus.modulus) then none else some (modp_to_mont r)

unfoldable pub fp2_from_bytes : List ℕ → Option Fp2
fp2_from_bytes buf = do
  c1 ← coordinate (take 32 buf)
  c0 ← coordinate (drop 32 buf)
  some (record { c0 = c0; c1 = c1 })
