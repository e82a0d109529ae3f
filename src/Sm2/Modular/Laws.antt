-- ===== src/Sm2/Modular/Laws.antt =====
-- The functions modulo a number, for any record of constants that fit each other.
use Prim.Native.Nat.{compare}
use gm_ssl.Base.{ℕ, zero, suc, ◌+◌, ◌-◌, ◌*◌, ◌%◌, ◌^◌, ◌≤◌, ◌<◌, arith, ◌≡◌, ◌≢◌, ap, ◌∙◌}
use gm_ssl.Base.{List, ◌==◌, leb, leb→le, leb→lt, ne→==, ==→eq, ==→ne, subst, Bool-cases, inl, inr}
use gm_ssl.Sm2.Limbs.{z256_add, z256_sub, z256_cmp}
use gm_ssl.Sm2.Limbs.Laws.{value, IsWords}
use gm_ssl.Sm2.Limbs.Words.{z256_add_lem, z256_sub_lem, z256_cmp-compare, value_lt}
use gm_ssl.Sm2.Modular.{Modulus, at_least, fit, mod_add, mod_sub}
use gm_ssl.Sm2.Modular.Residues.{remainder}

-- What the constants are to each other.
pub record IsModulus (M : Modulus) (inverse : ℕ) : Type 0 where
  pub modulus_words : IsWords 4 M.modulus
  pub neg_words : IsWords 4 M.neg
  pub prime_words : IsWords 4 M.prime
  pub square_words : IsWords 4 M.square
  pub complement : value M.neg + value M.modulus ≡ 2 ^ 256
  pub inverts : 2 ^ 256 * inverse ≡ value M.prime * value M.modulus + 1
  pub square : value M.square ≡ 2 ^ 512 % value M.modulus
  pub odd : value M.modulus % 2 ≡ 1
  pub large : 2 ^ 255 < value M.modulus

module _ (M : Modulus) where
  -- A number of four words below the modulus.
  pub record Element (a : List ℕ) : Type 0 where
    pub words : IsWords 4 a
    pub reduced : value a < value M.modulus

  pub record Result (v : ℕ) (a : List ℕ) : Type 0 where
    pub element : Element a
    pub residue : value a ≡ v % value M.modulus

at_least-compare : (a b : ℕ) → at_least (compare a b) ≡ leb b a
at_least-compare a b = ground arith

module _ (M : Modulus) (inv : ℕ) (fits : IsModulus M inv) where
  -- What is below the modulus and differs by a multiple of it is the remainder.
  made :
      (v k : ℕ) (x : List ℕ)
      → IsWords 4 x
      → value x < value M.modulus
      → v ≡ value x + value M.modulus * k
      → Result M v x
  made v k x words lt e = record {
    element = record { words = words; reduced = lt };
    residue = remainder (value M.modulus) (value x) k v lt e;
  }

  pub fit_lem :
      (r : List ℕ) (c : ℕ)
      → IsWords 4 r
      → c ≤ 1
      → value r + 2 ^ 256 * c < 2 * value M.modulus
      → Result M (value r + 2 ^ 256 * c) (fit M (r, c))
  unfolding fit
  fit_lem r zero h _ lt =
      let m = value M.modulus in
      let e : at_least (z256_cmp r M.modulus) ≡ leb m (value r) =
        ap at_least (z256_cmp-compare r M.modulus h fits.modulus_words)
        ∙ at_least-compare (value r) m in
      elim (Bool-cases (leb m (value r))) [
        | inl k ↦
            let d = z256_sub_lem r M.modulus h fits.modulus_words in
            let small = value_lt (z256_sub r M.modulus).0 d.0 in
            let le : m ≤ value r = leb→le m (value r) k in
            rw (e, k)
              (made (value r + 2 ^ 256 * 0) 1 (z256_sub r M.modulus).0 d.0 (omega arith)
                (omega arith))
        | inr k ↦
            let le : value r < m = leb→lt m (value r) k in
            rw (e, k) (made (value r + 2 ^ 256 * 0) 0 r h (omega arith) (omega arith))
      ]
  fit_lem r (suc c) h le lt =
      let s = z256_add_lem r M.neg h fits.neg_words in
      let small = value_lt (z256_add r M.neg).0 s.0 in
      let big = value_lt M.modulus fits.modulus_words in
      let carried : suc c ≢ 0 = omega arith in
      rw (ne→== (suc c) 0 carried) (
        made (value r + 2 ^ 256 * suc c) 1 (z256_add r M.neg).0 s.0 (omega (arith, fits.complement))
          (omega (arith, fits.complement)))

  pub mod_add_lem :
      (a b : List ℕ) → Element M a → Element M b → Result M (value a + value b) (mod_add M a b)
  unfolding mod_add
  mod_add_lem a b ha hb =
      let s = z256_add_lem a b ha.words hb.words in
      let small =
        fit_lem (z256_add a b).0 (z256_add a b).1 s.0 s.1
          (omega (arith, s.2, ha.reduced, hb.reduced)) in
      subst (λ v. Result M v (fit M (z256_add a b))) s.2 small

  pub mod_sub_lem :
      (a b : List ℕ)
      → Element M a
      → Element M b
      → Result M (value a + value M.modulus - value b) (mod_sub M a b)
  unfolding mod_sub
  mod_sub_lem a b ha hb =
      let d = z256_sub_lem a b ha.words hb.words in
      let small = value_lt (z256_sub a b).0 d.0 in
      let n = value a + value M.modulus - value b in
      elim (Bool-cases ((z256_sub a b).1 == 0)) [
        | inl k ↦
            let e : (z256_sub a b).1 ≡ 0 = ==→eq (z256_sub a b).1 0 k in
            rw k (
              made n 1 (z256_sub a b).0 d.0 (omega (arith, ha.reduced)) (omega (arith, hb.reduced)))
        | inr k ↦
            let ne : (z256_sub a b).1 ≢ 0 = ==→ne (z256_sub a b).1 0 k in
            let d' = z256_sub_lem (z256_sub a b).0 M.neg d.0 fits.neg_words in
            let small' = value_lt (z256_sub (z256_sub a b).0 M.neg).0 d'.0 in
            rw k (
              made n 0 (z256_sub (z256_sub a b).0 M.neg).0 d'.0
                (omega (arith, ha.reduced, hb.reduced, fits.complement, d.1, d'.1))
                (omega (arith, ha.reduced, hb.reduced, fits.complement, d.1, d'.1)))
      ]
