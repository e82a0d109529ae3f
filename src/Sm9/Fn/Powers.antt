-- ===== src/Sm9/Fn/Powers.antt =====
-- The powers modulo n of src/sm9_z256.c, through the bits and the words of an exponent.
use native.Mathlib.Nat.{pow-zero}
use gm_ssl.Base.{ℕ, zero, suc, ◌+◌, ◌-◌, ◌*◌, ◌/◌, ◌%◌, ◌^◌, arith, ◌≡◌, refl, sym, ap, ◌∙◌, subst}
use gm_ssl.Base.{
  List, [], ◌∷◌, reverse, All, IsU64, u64, bit_and, ◌<<<◌, ◌==◌, ==→eq, ==→ne, ◌≢◌, Bool-cases, inl,
  inr,
}
use gm_ssl.Base.Bits.{bit_and_bit}
use gm_ssl.Sm2.Limbs.Laws.{value, IsWords}
use gm_ssl.Sm2.Modular.{one}
use gm_ssl.Sm2.Modular.Residues.{mul-Same}
use gm_ssl.Sm2.Modular.Exp.{
  pow_add, pow_one, top_bits, top_bits_all, top_bits_step, joined, joined-reverse, All-reverse,
}
use gm_ssl.Sm9.Fn.{modn_mul, pow_bit, pow_word, pow_words, modn_pow, modn_inv, n_minus_two}
use gm_ssl.Sm9.Fn.Barrett.{n}
use gm_ssl.Sm9.Fn.Laws.{IsResidue, modn_mul-product}

-- A residue that is a power of `x` modulo n.
record IsPower (x k : ℕ) (t : List ℕ) : Type 0 where
  pub residue : IsResidue t
  pub power : value t ≡ x ^ k % n

mul-IsPower :
    (x i j : ℕ) (a b : List ℕ) → IsPower x i a → IsPower x j b → IsPower x (i + j) (modn_mul a b)
mul-IsPower x i j a b ha hb =
    let (residue, product) = modn_mul-product a b ha.residue hb.residue in
    let left : value a % n ≡ x ^ i % n = omega (arith, ha.power) in
    let right : value b % n ≡ x ^ j % n = omega (arith, hb.power) in
    record {
      residue = residue;
      power =
          product
          ∙ mul-Same n (value a) (x ^ i) (value b) (x ^ j) left right
          ∙ ap (λ k. k % n) (sym (pow_add x i j));
    }

module _ (x : ℕ) (a : List ℕ) (base : IsPower x 1 a) where
  pow_bit-IsPower :
      (k w : ℕ) (t : List ℕ)
      → IsU64 w
      → IsPower x k t
      → IsPower x (k * 2 + w / 2 ^ 63) (pow_bit a w t)
  unfolding pow_bit
  pow_bit-IsPower k w t h ht =
      let top : bit_and w 0x8000000000000000 ≡ w / 2 ^ 63 % 2 * 2 ^ 63 = bit_and_bit 63 w in
      let twice = mul-IsPower x k k t t ht ht in
      elim (Bool-cases (bit_and w 0x8000000000000000 == 0)) [
        | inl e ↦
            let z : bit_and w 0x8000000000000000 ≡ 0 = ==→eq (bit_and w 0x8000000000000000) 0 e in
            let i : k + k ≡ k * 2 + w / 2 ^ 63 = omega arith in
            rw e (subst (λ i. IsPower x i (modn_mul t t)) i twice)
        | inr e ↦
            let z : bit_and w 0x8000000000000000 ≢ 0 = ==→ne (bit_and w 0x8000000000000000) 0 e in
            let i : k + k + 1 ≡ k * 2 + w / 2 ^ 63 = omega arith in
            rw e (
              subst (λ i. IsPower x i (modn_mul (modn_mul t t) a)) i
                (mul-IsPower x (k + k) 1 (modn_mul t t) a twice base))
      ]

  pow_word-IsPower :
      (m k w : ℕ) (t : List ℕ)
      → IsU64 w
      → IsPower x k t
      → IsPower x (k * 2 ^ m + top_bits m w) (pow_word m a w t)
  unfolding pow_word top_bits
  pow_word-IsPower zero k w t h ht =
      let e : k ≡ k * 2 ^ 0 + 0 = omega arith in subst (λ i. IsPower x i t) e ht
  pow_word-IsPower (suc m) k w t h ht =
      subst (λ i. IsPower x i (pow_word m a (u64 (w <<< 1)) (pow_bit a w t))) (top_bits_step m k w)
        (pow_word-IsPower m (k * 2 + w / 2 ^ 63) (u64 (w <<< 1)) (pow_bit a w t) (omega arith)
          (pow_bit-IsPower k w t h ht))

  pow_words-IsPower :
      (k : ℕ) (ws t : List ℕ)
      → All IsU64 ws
      → IsPower x k t
      → IsPower x (joined k ws) (pow_words a ws t)
  unfolding pow_words joined
  pow_words-IsPower k [] t h ht = ht
  pow_words-IsPower k (w ∷ ws) t h ht =
      let word =
        subst (λ i. IsPower x (k * 2 ^ 64 + i) (pow_word 64 a w t)) (top_bits_all w h.0)
          (pow_word-IsPower 64 k w t h.0 ht) in
      pow_words-IsPower (k * 2 ^ 64 + w) ws (pow_word 64 a w t) h.1 word

  one-IsPower : IsPower x 0 one
  unfolding value
  one-IsPower = record {
    residue = record { words = record { words = omega arith; size = refl }; reduced = omega arith };
    power = ap (λ k. k % n) (sym (pow-zero x));
  }

  modn_pow-IsPower : (e : List ℕ) → IsWords 4 e → IsPower x (value e) (modn_pow a e)
  unfolding modn_pow
  modn_pow-IsPower e h =
      subst (λ i. IsPower x i (pow_words a (reverse e) one)) (joined-reverse e)
        (pow_words-IsPower 0 (reverse e) one (All-reverse IsU64 e h.words) one-IsPower)

-- For every residue and every exponent of four words: `sm9_z256_modn_pow` returns a residue, the
-- power of the number with the exponent modulo n.
pub modn_pow_lem :
    (a e : List ℕ)
    → IsResidue a
    → IsWords 4 e
    → IsResidue (modn_pow a e) × (value (modn_pow a e) ≡ value a ^ value e % n)
modn_pow_lem a e ha he =
    let base : IsPower (value a) 1 a = record { residue = ha; power = reduced_power } in
    let r = modn_pow-IsPower (value a) a base e he in (r.residue, r.power)
  where
    reduced_power : value a ≡ value a ^ 1 % n
    reduced_power = omega (arith, pow_one (value a), ha.reduced)

-- For every residue: `sm9_z256_modn_inv` returns its power n - 2 modulo n.
pub modn_inv-power :
    (a : List ℕ)
    → IsResidue a
    → IsResidue (modn_inv a) × (value (modn_inv a) ≡ value a ^ (n - 2) % n)
unfolding modn_inv value
modn_inv-power a h =
    let (residue, power) = modn_pow_lem a n_minus_two h n_minus_two-IsWords in
    (residue, power ∙ ap (λ k. value a ^ k % n) value-n_minus_two)
  where
    n_minus_two-IsWords : IsWords 4 n_minus_two
    n_minus_two-IsWords = record { words = omega arith; size = refl }

    value-n_minus_two : value n_minus_two ≡ n - 2
    value-n_minus_two = refl
