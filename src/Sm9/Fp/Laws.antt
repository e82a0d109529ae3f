-- ===== src/Sm9/Fp/Laws.antt =====
-- What the functions do to the numbers that elements in Montgomery form stand for.
use native.Mathlib.Nat.{add-mul}
use gm_ssl.Base.{ℕ, ◌+◌, ◌-◌, ◌*◌, ◌%◌, ◌^◌, arith, ◌≡◌, refl, sym, ap, ◌∙◌, subst}
use gm_ssl.Base.{List}
use gm_ssl.Sm2.Limbs.Laws.{value}
use gm_ssl.Sm2.Field.Constants.{four-IsWords}
use gm_ssl.Sm2.Modular.Residues.{Same, multiple-Same, add-Same, mul-Same}
use gm_ssl.Sm2.Modular.Laws.{IsModulus, Element, Result, mod_add_lem, mod_sub_lem}
use gm_ssl.Sm2.Modular.Form.{
  Form, residue-Same, moved-Result, mont_mul-Form, elements-Form, to_mont-Form, from_mont-Form,
}
use gm_ssl.Sm2.Modular.Exp.{mont_exp-Power}
use gm_ssl.Sm9.Fp.{
  p_modulus, p_minus_two, modp_add, modp_sub, modp_dbl, modp_mont_mul, modp_mont_sqr, modp_mont_pow,
  modp_mont_inv, modp_to_mont, modp_from_mont,
}

abbrev pub prime_p : ℕ
prime_p = 0xb640000002a3a6f1d603ab4ff58ec74521f2934b1a7aeedbe56f9b27e351457d

abbrev pub p_inverse : ℕ
p_inverse = 0x7d2bc576fdf597d1cda02d92d4d62924e74504e9a96b56cc0a1c7970e5df544d

pub p_modulus-value : value p_modulus.modulus ≡ prime_p
unfolding p_modulus value
p_modulus-value = refl

pub p_modulus-IsModulus : IsModulus p_modulus p_inverse
unfolding p_modulus value
p_modulus-IsModulus = record {
  modulus_words = four-IsWords _ _ _ _ (omega arith) (omega arith) (omega arith) (omega arith);
  neg_words = four-IsWords _ _ _ _ (omega arith) (omega arith) (omega arith) (omega arith);
  prime_words = four-IsWords _ _ _ _ (omega arith) (omega arith) (omega arith) (omega arith);
  square_words = four-IsWords _ _ _ _ (omega arith) (omega arith) (omega arith) (omega arith);
  complement = refl;
  inverts = refl;
  square = refl;
  odd = refl;
  large = omega arith;
}

-- A list of words that stands for a number in the prime field of SM9.
abbrev pub Stands : ℕ → List ℕ → Type 0
Stands x a = Form p_modulus x a

-- The number may be changed by a multiple of p.
pub shifted-Stands : (v w k : ℕ) (a : List ℕ) → v ≡ w + prime_p * k → Stands v a → Stands w a
shifted-Stands v w k a e h =
    let m = value p_modulus.modulus in
    let e' : v * 2 ^ 256 ≡ w * 2 ^ 256 + m * (k * 2 ^ 256) =
      omega (arith, e, ap (λ p. p * (k * 2 ^ 256)) p_modulus-value) in
    moved-Result p_modulus (v * 2 ^ 256) (w * 2 ^ 256) a
      (ap (λ n. n % m) e' ∙ multiple-Same m (w * 2 ^ 256) (k * 2 ^ 256)) h

pub modp_add-Stands :
    (x y : ℕ) (a b : List ℕ) → Stands x a → Stands y b → Stands (x + y) (modp_add a b)
unfolding modp_add
modp_add-Stands x y a b ha hb =
    let m = value p_modulus.modulus in
    let r = 2 ^ 256 in
    moved-Result p_modulus (value a + value b) ((x + y) * r) (modp_add a b)
      (add-Same m (value a) (x * r) (value b) (y * r) (residue-Same p_modulus (x * r) a ha)
          (residue-Same p_modulus (y * r) b hb)
        ∙ ap (λ n. n % m) (sym (add-mul x y r)))
      (mod_add_lem p_modulus p_inverse p_modulus-IsModulus a b ha.element hb.element)

pub modp_dbl-Stands : (x : ℕ) (a : List ℕ) → Stands x a → Stands (x + x) (modp_dbl a)
unfolding modp_dbl
modp_dbl-Stands x a h = modp_add-Stands x x a a h h

-- A difference, with p - 1 for the number -1.
pub modp_sub-Stands :
    (x y : ℕ) (a b : List ℕ)
    → Stands x a
    → Stands y b
    → Stands (x + (prime_p - 1) * y) (modp_sub a b)
unfolding modp_sub
modp_sub-Stands x y a b ha hb =
    let m = value p_modulus.modulus in
    let r = 2 ^ 256 in
    let n = value a + m - value b in
    let sum : value a + (prime_p - 1) * value b + m * 1 ≡ n + m * value b =
      omega (arith, p_modulus-value, ap (λ p. p * value b) p_modulus-value, hb.element.reduced) in
    let first : Same m n (value a + (prime_p - 1) * value b) =
      sym (multiple-Same m n (value b))
      ∙ ap (λ k. k % m) (sym sum)
      ∙ multiple-Same m (value a + (prime_p - 1) * value b) 1 in
    let parts : Same m (value a + (prime_p - 1) * value b) (x * r + (prime_p - 1) * (y * r)) =
      add-Same m (value a) (x * r) ((prime_p - 1) * value b) ((prime_p - 1) * (y * r))
        (residue-Same p_modulus (x * r) a ha)
        (mul-Same m (prime_p - 1) (prime_p - 1) (value b) (y * r) refl
          (residue-Same p_modulus (y * r) b hb)) in
    let order : x * r + (prime_p - 1) * (y * r) ≡ (x + (prime_p - 1) * y) * r = omega arith in
    moved-Result p_modulus n ((x + (prime_p - 1) * y) * r) (modp_sub a b)
      (first ∙ parts ∙ ap (λ k. k % m) order)
      (mod_sub_lem p_modulus p_inverse p_modulus-IsModulus a b ha.element hb.element)

pub modp_mont_mul-Stands :
    (x y : ℕ) (a b : List ℕ) → Stands x a → Stands y b → Stands (x * y) (modp_mont_mul a b)
unfolding modp_mont_mul
modp_mont_mul-Stands x y a b ha hb =
    mont_mul-Form p_modulus p_inverse p_modulus-IsModulus x y a b ha hb

pub modp_mont_sqr-Stands : (x : ℕ) (a : List ℕ) → Stands x a → Stands (x * x) (modp_mont_sqr a)
unfolding modp_mont_sqr
modp_mont_sqr-Stands x a h = modp_mont_mul-Stands x x a a h h

p_minus_two-value : value p_minus_two ≡ prime_p - 2
unfolding value
p_minus_two-value = refl

-- The inverse is the power with the exponent p - 2.
pub modp_mont_inv-Stands :
    (x : ℕ) (a : List ℕ) → Stands x a → Stands (x ^ (prime_p - 2)) (modp_mont_inv a)
unfolding modp_mont_inv modp_mont_pow
modp_mont_inv-Stands x a h =
    let words = four-IsWords _ _ _ _ (omega arith) (omega arith) (omega arith) (omega arith) in
    subst (λ k. Stands (x ^ k) (modp_mont_inv a)) p_minus_two-value
      (mont_exp-Power p_modulus p_inverse p_modulus-IsModulus x a h p_minus_two words)

pub modp_from_mont-Stands :
    (x : ℕ) (a : List ℕ) → Stands x a → Result p_modulus x (modp_from_mont a)
unfolding modp_from_mont
modp_from_mont-Stands x a h = from_mont-Form p_modulus p_inverse p_modulus-IsModulus x a h

pub modp_to_mont-Stands : (a : List ℕ) → Element p_modulus a → Stands (value a) (modp_to_mont a)
unfolding modp_to_mont
modp_to_mont-Stands a h = to_mont-Form p_modulus p_inverse p_modulus-IsModulus a h

pub elements-Stands : (a : List ℕ) → Element p_modulus a → Stands (value a * p_inverse) a
elements-Stands a h = elements-Form p_modulus p_inverse p_modulus-IsModulus a h
