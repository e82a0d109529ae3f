-- ===== src/Sm2/Field/Root.antt =====
-- The square root and the half modulo p.
use Prim.Native.Nat.{compare, Ordering}
use gm_ssl.Base.{ℕ, ◌+◌, ◌*◌, ◌%◌, ◌^◌, arith, ◌≡◌, refl, sym, ◌∙◌, subst}
use gm_ssl.Base.{List, some}
use mathlib.Core.Option.{none-ne-some, some-injective}
use gm_ssl.Sm2.Limbs.{z256_cmp}
use gm_ssl.Sm2.Limbs.Laws.{value}
use gm_ssl.Sm2.Limbs.Words.{z256_cmp-compare}
use gm_ssl.Sm2.Modular
use gm_ssl.Sm2.Modular.Residues.{Same, mul-Same, cancel}
use gm_ssl.Sm2.Modular.Half.{mod_haf_lem}
use gm_ssl.Sm2.Modular.Form.{Form, residue-Same, mont_mul-Form, from_mont-Form, elements-Form}
use gm_ssl.Sm2.Modular.Exp.{mont_exp-Power}
use gm_ssl.Sm2.Field.{
  p_modulus, modp_haf, modp_mont_mul, modp_mont_sqr, modp_mont_exp, modp_from_mont, modp_mont_sqrt,
  root_if, sqrt_exp,
}
use gm_ssl.Sm2.Field.Constants.{
  prime_p, p_inverse, p_modulus-value, p_modulus-IsModulus, sqrt_exp-IsWords,
}
use gm_ssl.Sm2.Field.Laws.{ElementP}

-- The half of an element is an element, and twice it is the number, or the number and p.
pub modp_haf_lem :
    (a : List ℕ)
    → ElementP a
    → ElementP (modp_haf a) × (2 * value (modp_haf a) ≡ value a + value a % 2 * prime_p)
unfolding modp_haf
modp_haf_lem a h =
    subst (λ m. ElementP (modp_haf a) × (2 * value (modp_haf a) ≡ value a + value a % 2 * m))
      p_modulus-value (mod_haf_lem p_modulus p_inverse p_modulus-IsModulus a h)

root_if-some : (o : Ordering) (s r : List ℕ) → root_if o s ≡ some r → (o ≡ Ordering.eq) × (s ≡ r)
unfolding root_if
root_if-some Ordering.lt s r h = absurd (none-ne-some r h)
root_if-some Ordering.gt s r h = absurd (none-ne-some r h)
root_if-some Ordering.eq s r h = (refl, some-injective s r h)

compared_eq : (a b : ℕ) → compare a b ≡ Ordering.eq → a ≡ b
compared_eq a b h = ground arith

-- What the function takes for a root is one: taken out of Montgomery form, its square is the number
-- modulo p.
pub modp_mont_sqrt-some :
    (a r : List ℕ)
    → ElementP a
    → modp_mont_sqrt a ≡ some r
    → ElementP r
      × ((value (modp_from_mont r) * value (modp_from_mont r)) % prime_p ≡ value (modp_from_mont a))
unfolding modp_mont_sqrt modp_mont_exp modp_mont_sqr modp_mont_mul modp_from_mont
modp_mont_sqrt-some a r ha h =
    let M = p_modulus in
    let laws = p_modulus-IsModulus in
    let m = value M.modulus in
    let x = value a * p_inverse in
    let form = elements-Form M p_inverse laws a ha in
    let root = Modular.mont_exp M a sqrt_exp in
    let y = x ^ value sqrt_exp in
    let power : Form M y root =
      mont_exp-Power M p_inverse laws x a form sqrt_exp sqrt_exp-IsWords in
    let squared : Form M (y * y) (Modular.mont_mul M root root) =
      mont_mul-Form M p_inverse laws y y root root power power in
    let found = root_if-some (z256_cmp (Modular.mont_mul M root root) a) root r h in
    let equal : value (Modular.mont_mul M root root) ≡ value a =
      compared_eq (value (Modular.mont_mul M root root)) (value a) (
        sym (z256_cmp-compare (Modular.mont_mul M root root) a squared.element.words ha.words)
        ∙ found.0) in
    let same : Same m (y * y) x =
      cancel m (2 ^ 256) p_inverse (value M.prime) (y * y) x laws.inverts
        (sym squared.residue ∙ equal ∙ form.residue) in
    let back = from_mont-Form M p_inverse laws y root power in
    let back_a = from_mont-Form M p_inverse laws x a form in
    let both : (value (modp_from_mont root) * value (modp_from_mont root)) % m
        ≡ value (modp_from_mont a) =
      mul-Same m (value (modp_from_mont root)) y (value (modp_from_mont root)) y
        (residue-Same M y (modp_from_mont root) back) (residue-Same M y (modp_from_mont root) back)
      ∙ same
      ∙ sym back_a.residue in
    subst
      (λ t.
        ElementP t
        × ((value (modp_from_mont t) * value (modp_from_mont t)) % prime_p
            ≡ value (modp_from_mont a)))
      found.1
      (
        power.element,
        subst
            (λ k.
              (value (modp_from_mont root) * value (modp_from_mont root)) % k
              ≡ value (modp_from_mont a))
            p_modulus-value both,
      )
