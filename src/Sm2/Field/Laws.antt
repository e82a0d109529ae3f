-- ===== src/Sm2/Field/Laws.antt =====
-- The arithmetic modulo p and modulo n, on the numbers that the words stand for.
use gm_ssl.Base.{ℕ, ◌+◌, ◌-◌, ◌*◌, ◌%◌, ◌^◌, ◌≡◌, ap, ◌∙◌, subst}
use gm_ssl.Base.{List}
use gm_ssl.Sm2.Limbs.Laws.{value, IsWords}
use gm_ssl.Sm2.Modular.{Modulus}
use gm_ssl.Sm2.Modular
use gm_ssl.Sm2.Modular.Laws.{Element, Result, mod_add_lem, mod_sub_lem}
use gm_ssl.Sm2.Modular.Form.{mont_mul-Form, to_mont-Form, from_mont-Form}
use gm_ssl.Sm2.Modular.Exp.{mont_exp-Power}
use gm_ssl.Sm2.Field.{
  p_modulus, n_modulus, modp_add, modp_sub, modp_from_mont, modp_to_mont, modp_mont_mul, modn_add,
  modn_sub, modn_mont_mul, modn_from_mont, modn_to_mont, modn_mul, modn_mont_exp, modn_exp,
}
use gm_ssl.Sm2.Field.Constants.{
  prime_p, order_n, p_inverse, n_inverse, p_modulus-value, n_modulus-value, p_modulus-IsModulus,
  n_modulus-IsModulus,
}

-- An element of the field of p, and of the numbers modulo n: four words that stand for a number
-- below the modulus.
abbrev pub ElementP : List ℕ → Type 0
ElementP = Element p_modulus

abbrev pub ElementN : List ℕ → Type 0
ElementN = Element n_modulus

pub outcome_p : (v : ℕ) (a : List ℕ) → Result p_modulus v a → ElementP a × (value a ≡ v % prime_p)
outcome_p v a r = (r.element, r.residue ∙ ap (λ m. v % m) p_modulus-value)

pub outcome_n : (v : ℕ) (a : List ℕ) → Result n_modulus v a → ElementN a × (value a ≡ v % order_n)
outcome_n v a r = (r.element, r.residue ∙ ap (λ m. v % m) n_modulus-value)

-- Of two elements modulo p, `modp_add` gives an element that stands for the sum modulo p, and
-- `modp_sub` one that stands for the difference modulo p.
pub modp_add-modp_sub :
    (a b : List ℕ)
    → ElementP a
    → ElementP b
    → (ElementP (modp_add a b) × (value (modp_add a b) ≡ (value a + value b) % prime_p))
      × (ElementP (modp_sub a b) × (value (modp_sub a b) ≡ (value a + prime_p - value b) % prime_p))
unfolding modp_add modp_sub
modp_add-modp_sub a b ha hb = (
  outcome_p (value a + value b) (modp_add a b)
      (mod_add_lem p_modulus p_inverse p_modulus-IsModulus a b ha hb),
  subst (λ m. ElementP (modp_sub a b) × (value (modp_sub a b) ≡ (value a + m - value b) % prime_p))
      p_modulus-value
      (outcome_p (value a + value p_modulus.modulus - value b) (modp_sub a b)
        (mod_sub_lem p_modulus p_inverse p_modulus-IsModulus a b ha hb)),
)

pub modn_add-modn_sub :
    (a b : List ℕ)
    → ElementN a
    → ElementN b
    → (ElementN (modn_add a b) × (value (modn_add a b) ≡ (value a + value b) % order_n))
      × (ElementN (modn_sub a b) × (value (modn_sub a b) ≡ (value a + order_n - value b) % order_n))
unfolding modn_add modn_sub
modn_add-modn_sub a b ha hb = (
  outcome_n (value a + value b) (modn_add a b)
      (mod_add_lem n_modulus n_inverse n_modulus-IsModulus a b ha hb),
  subst (λ m. ElementN (modn_sub a b) × (value (modn_sub a b) ≡ (value a + m - value b) % order_n))
      n_modulus-value
      (outcome_n (value a + value n_modulus.modulus - value b) (modn_sub a b)
        (mod_sub_lem n_modulus n_inverse n_modulus-IsModulus a b ha hb)),
)

-- The product of elements in Montgomery form, taken out of it, is the product modulo p.
pub modp_mont_mul_lem :
    (a b : List ℕ)
    → ElementP a
    → ElementP b
    → ElementP (modp_from_mont (modp_mont_mul (modp_to_mont a) (modp_to_mont b)))
      × (value (modp_from_mont (modp_mont_mul (modp_to_mont a) (modp_to_mont b)))
          ≡ (value a * value b) % prime_p)
unfolding modp_from_mont modp_mont_mul modp_to_mont
modp_mont_mul_lem a b ha hb =
    let M = p_modulus in
    let h = p_modulus-IsModulus in
    let product = Modular.mont_mul M (Modular.to_mont M a) (Modular.to_mont M b) in
    outcome_p (value a * value b) (Modular.from_mont M product) (
      from_mont-Form M p_inverse h (value a * value b) product (
        mont_mul-Form M p_inverse h (value a) (value b) (Modular.to_mont M a) (Modular.to_mont M b)
          (to_mont-Form M p_inverse h a ha) (to_mont-Form M p_inverse h b hb)))

-- The product of elements is their product modulo n, an element again.
pub modn_mul_lem :
    (a b : List ℕ)
    → ElementN a
    → ElementN b
    → ElementN (modn_mul a b) × (value (modn_mul a b) ≡ (value a * value b) % order_n)
unfolding modn_from_mont modn_mont_mul modn_to_mont modn_mul
modn_mul_lem a b ha hb =
    let M = n_modulus in
    let h = n_modulus-IsModulus in
    let product = Modular.mont_mul M (Modular.to_mont M a) (Modular.to_mont M b) in
    outcome_n (value a * value b) (Modular.from_mont M product) (
      from_mont-Form M n_inverse h (value a * value b) product (
        mont_mul-Form M n_inverse h (value a) (value b) (Modular.to_mont M a) (Modular.to_mont M b)
          (to_mont-Form M n_inverse h a ha) (to_mont-Form M n_inverse h b hb)))

-- The power of an element to any exponent of four words is its power modulo n, an element again.
pub modn_exp_lem :
    (a e : List ℕ)
    → ElementN a
    → IsWords 4 e
    → ElementN (modn_exp a e) × (value (modn_exp a e) ≡ (value a ^ value e) % order_n)
unfolding modn_from_mont modn_mont_exp modn_to_mont modn_exp
modn_exp_lem a e ha he =
    let M = n_modulus in
    let h = n_modulus-IsModulus in
    let a' = Modular.to_mont M a in
    let power = Modular.mont_exp M a' e in
    outcome_n (value a ^ value e) (Modular.from_mont M power) (
      from_mont-Form M n_inverse h (value a ^ value e) power
        (mont_exp-Power M n_inverse h (value a) a' (to_mont-Form M n_inverse h a ha) e he))
