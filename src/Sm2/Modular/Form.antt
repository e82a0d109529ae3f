-- ===== src/Sm2/Modular/Form.antt =====
-- Montgomery form: `a` stands for `x` when it is x * 2 ^ 256 reduced. The functions on this form do
-- what they say on the numbers that it stands for.
use native.Mathlib.Nat.{
  mul-one, mul_assoc, mul_comm, mul-mul-mul_comm, mul_right_comm, mod-eq_of_lt, mod-mod,
}
use gm_ssl.Base.{ℕ, ◌*◌, ◌%◌, ◌^◌, arith, ◌≡◌, refl, sym, ap, ◌∙◌}
use gm_ssl.Base.{List}
use gm_ssl.Sm2.Limbs.Laws.{value, IsWords}
use gm_ssl.Sm2.Modular.{Modulus, one, mont_mul, from_mont, to_mont}
use gm_ssl.Sm2.Modular.Residues.{Same, mul-Same, mul-Same_left, undo}
use gm_ssl.Sm2.Modular.Laws.{IsModulus, Element, Result}
use gm_ssl.Sm2.Modular.Mont.{mont_mul_lem}

module _ (M : Modulus) where
  abbrev pub Form : ℕ → List ℕ → Type 0
  Form x a = Result M (x * 2 ^ 256) a

  pub residue-Same : (v : ℕ) (a : List ℕ) → Result M v a → Same (value M.modulus) (value a) v
  residue-Same v a r = ap (λ n. n % value M.modulus) r.residue ∙ mod-mod v (value M.modulus)

  pub moved-Result :
      (v w : ℕ) (a : List ℕ) → Same (value M.modulus) v w → Result M v a → Result M w a
  moved-Result v w a e r = record { element = r.element; residue = r.residue ∙ e }

one-IsWords : IsWords 4 one
one-IsWords = record {
  words = (omega arith, (omega arith, (omega arith, (omega arith, tt))));
  size = refl;
}

value-one : value one ≡ 1
unfolding value
value-one = refl

module _ (M : Modulus) (inv : ℕ) (fits : IsModulus M inv) where
  pub mont_mul-Form :
      (x y : ℕ) (a b : List ℕ) → Form M x a → Form M y b → Form M (x * y) (mont_mul M a b)
  mont_mul-Form x y a b ha hb =
      let m = value M.modulus in
      let r = 2 ^ 256 in
      let parts : Same m (value a * value b * inv) (x * r * (y * r) * inv) =
        mul-Same_left m (value a * value b) (x * r * (y * r)) inv (
          mul-Same m (value a) (x * r) (value b) (y * r) (residue-Same M (x * r) a ha)
            (residue-Same M (y * r) b hb)) in
      let order : x * r * (y * r) * inv ≡ x * y * r * r * inv =
        ap (λ n. n * inv) (mul-mul-mul_comm x r y r ∙ sym (mul_assoc (x * y) r r)) in
      moved-Result M (value a * value b * inv) (x * y * r) (mont_mul M a b)
        (parts ∙ ap (λ n. n % m) order ∙ undo m r inv (value M.prime) (x * y * r) fits.inverts)
        (mont_mul_lem M inv fits a b ha.element hb.element.words)

  pub to_mont-Form : (a : List ℕ) → Element M a → Form M (value a) (to_mont M a)
  unfolding to_mont
  to_mont-Form a ha =
      let m = value M.modulus in
      let r = 2 ^ 256 in
      let square : Same m (value M.square) (2 ^ 512) =
        ap (λ n. n % m) fits.square ∙ mod-mod (2 ^ 512) m in
      let parts : Same m (value a * value M.square * inv) (2 ^ 512 * value a * inv) =
        mul-Same_left m (value a * value M.square) (2 ^ 512 * value a) inv (
          ap (λ n. n % m) (mul_comm (value a) (value M.square))
          ∙ mul-Same_left m (value M.square) (2 ^ 512) (value a) square) in
      let order : 2 ^ 512 * value a * inv ≡ value a * r * r * inv =
        ap (λ n. n * inv) (omega arith) in
      moved-Result M (value a * value M.square * inv) (value a * r) (to_mont M a)
        (parts ∙ ap (λ n. n % m) order ∙ undo m r inv (value M.prime) (value a * r) fits.inverts)
        (mont_mul_lem M inv fits a M.square ha fits.square_words)

  pub from_mont-Form : (x : ℕ) (a : List ℕ) → Form M x a → Result M x (from_mont M a)
  unfolding from_mont
  from_mont-Form x a ha =
      let m = value M.modulus in
      let single : value a * value one ≡ value a =
        ap (λ n. value a * n) value-one ∙ mul-one (value a) in
      let back : Same m (value a * value one * inv) x =
        ap (λ n. (n * inv) % m) single
        ∙ mul-Same_left m (value a) (x * 2 ^ 256) inv (residue-Same M (x * 2 ^ 256) a ha)
        ∙ undo m (2 ^ 256) inv (value M.prime) x fits.inverts in
      moved-Result M (value a * value one * inv) x (from_mont M a) back
        (mont_mul_lem M inv fits a one ha.element one-IsWords)

  -- Every element stands for a number.
  pub elements-Form : (a : List ℕ) → Element M a → Form M (value a * inv) a
  elements-Form a h =
      let m = value M.modulus in
      let order : value a * 2 ^ 256 * inv ≡ value a * inv * 2 ^ 256 =
        mul_right_comm (value a) (2 ^ 256) inv in
      record {
        element = h;
        residue =
            sym (mod-eq_of_lt h.reduced)
            ∙ sym (undo m (2 ^ 256) inv (value M.prime) (value a) fits.inverts)
            ∙ ap (λ n. n % m) order;
      }
