-- ===== src/Sm2/Modular/Exp.antt =====
-- Powers in Montgomery form: the loops over the bits and the words of an exponent.
use mathlib.Core.List.{reverse-cons}
use native.Mathlib.Nat.{
  add-mul, mul_assoc, mul_comm, mul-one, one-mul, pow-zero, pow-suc, pow-succ',
}
use gm_ssl.Base.{ℕ, zero, suc, ◌+◌, ◌*◌, ◌/◌, ◌%◌, ◌^◌, arith, ◌≡◌, refl, sym, ap, ◌∙◌, subst}
use gm_ssl.Base.{
  List, [], ◌∷◌, ◌++◌, reverse, All, IsU64, u64, bit_and, ◌<<<◌, ◌==◌, ==→eq, ==→ne, ◌≢◌,
  All-append, Bool-cases, inl, inr,
}
use gm_ssl.Base.Bits.{bit_and_bit}
use gm_ssl.Sm2.Limbs.Laws.{value, IsWords}
use gm_ssl.Sm2.Modular.{Modulus, mont_mul, mont_sqr, exp_bit, exp_word, exp_words, mont_exp}
use gm_ssl.Sm2.Modular.Residues.{remainder}
use gm_ssl.Sm2.Modular.Laws.{IsModulus}
use gm_ssl.Sm2.Modular.Form.{Form, mont_mul-Form}

pub pow_add : (x m n : ℕ) → x ^ (m + n) ≡ x ^ m * x ^ n
pow_add x m zero =
    ap (λ k. x ^ k) (omega arith) ∙ sym (ap (λ k. x ^ m * k) (pow-zero x) ∙ mul-one (x ^ m))
pow_add x m (suc n) =
    let e : m + suc n ≡ suc (m + n) = omega arith in
    ap (λ k. x ^ k) e
    ∙ pow-suc x (m + n)
    ∙ ap (λ k. k * x) (pow_add x m n)
    ∙ mul_assoc (x ^ m) (x ^ n) x
    ∙ ap (λ k. x ^ m * k) (sym (pow-suc x n))

pub pow_one : (x : ℕ) → x ^ 1 ≡ x
pow_one x = pow-suc x 0 ∙ ap (λ k. k * x) (pow-zero x) ∙ one-mul x

-- The number that the `n` top bits of a word make.
unfoldable pub top_bits : ℕ → ℕ → ℕ
top_bits zero w = 0
top_bits (suc n) w = w / 2 ^ 63 * 2 ^ n + top_bits n (u64 (w <<< 1))

top_bits-div : (n w : ℕ) → IsU64 w → top_bits n w ≡ w * 2 ^ n / 2 ^ 64
unfolding top_bits
top_bits-div zero w h = omega arith
top_bits-div (suc n) w h =
    let later : top_bits n (u64 (w <<< 1)) ≡ u64 (w <<< 1) * 2 ^ n / 2 ^ 64 =
      top_bits-div n (u64 (w <<< 1)) (omega arith) in
    let parts : w * 2 ≡ w / 2 ^ 63 * 2 ^ 64 + u64 (w <<< 1) = omega arith in
    let whole : w * 2 ^ suc n ≡ w / 2 ^ 63 * 2 ^ n * 2 ^ 64 + u64 (w <<< 1) * 2 ^ n =
      ap (λ k. w * k) (pow-succ' 2 n)
      ∙ sym (mul_assoc w 2 (2 ^ n))
      ∙ ap (λ k. k * 2 ^ n) parts
      ∙ omega (
        arith,
        add-mul (w / 2 ^ 63 * 2 ^ 64) (u64 (w <<< 1)) (2 ^ n),
        mul_assoc (w / 2 ^ 63) (2 ^ 64) (2 ^ n),
        mul_assoc (w / 2 ^ 63) (2 ^ n) (2 ^ 64),
        ap (λ k. w / 2 ^ 63 * k) (mul_comm (2 ^ 64) (2 ^ n)),
      ) in
    omega (arith, later, whole)

pub top_bits_all : (w : ℕ) → IsU64 w → top_bits 64 w ≡ w
top_bits_all w h = top_bits-div 64 w h ∙ omega arith

-- One more bit of a word, after a number `k`.
pub top_bits_step :
    (n k w : ℕ)
    → (k * 2 + w / 2 ^ 63) * 2 ^ n + top_bits n (u64 (w <<< 1)) ≡ k * 2 ^ suc n + top_bits (suc n) w
unfolding top_bits
top_bits_step n k w = omega (
  arith,
  add-mul (k * 2) (w / 2 ^ 63) (2 ^ n),
  mul_assoc k 2 (2 ^ n),
  ap (λ i. k * i) (pow-succ' 2 n),
)

-- The number that words make after a number `k`, the high word first.
unfoldable pub joined : ℕ → List ℕ → ℕ
joined k [] = k
joined k (w ∷ ws) = joined (k * 2 ^ 64 + w) ws

joined-append : (k : ℕ) (ws : List ℕ) (w : ℕ) → joined k (ws ++ (w ∷ [])) ≡ joined k ws * 2 ^ 64 + w
unfolding joined
joined-append k [] w = refl
joined-append k (v ∷ ws) w = joined-append (k * 2 ^ 64 + v) ws w

pub joined-reverse : (ws : List ℕ) → joined 0 (reverse ws) ≡ value ws
unfolding joined value
joined-reverse [] = refl
joined-reverse (w ∷ ws) =
    ap (joined 0) (reverse-cons w ws)
    ∙ joined-append 0 (reverse ws) w
    ∙ omega (arith, joined-reverse ws)

pub All-reverse {ℓ κ} : {A : Type ℓ} (P : A → Type κ) (xs : List A) → All P xs → All P (reverse xs)
All-reverse P [] h = tt
All-reverse P (x ∷ xs) h =
    rw (reverse-cons x xs) (All-append P (reverse xs) (x ∷ []) (All-reverse P xs h.1) (h.0, tt))

module _ (M : Modulus) (inv : ℕ) (fits : IsModulus M inv) where
  -- `b` stands for a power of `x`.
  abbrev pub Power : ℕ → ℕ → List ℕ → Type 0
  Power x k b = Form M (x ^ k) b

  pub mont_mul-Power :
      (x i j : ℕ) (a b : List ℕ) → Power x i a → Power x j b → Power x (i + j) (mont_mul M a b)
  mont_mul-Power x i j a b ha hb =
      subst (λ n. Form M n (mont_mul M a b)) (sym (pow_add x i j))
        (mont_mul-Form M inv fits (x ^ i) (x ^ j) a b ha hb)

  module _ (x : ℕ) (a : List ℕ) (base : Form M x a) where
    pub base-Power : Power x 1 a
    base-Power = subst (λ n. Form M n a) (sym (pow_one x)) base

    exp_bit-Power :
        (k w : ℕ) (t : List ℕ)
        → IsU64 w
        → Power x k t
        → Power x (k * 2 + w / 2 ^ 63) (exp_bit M a w t)
    unfolding exp_bit mont_sqr
    exp_bit-Power k w t h ht =
        let top : bit_and w 0x8000000000000000 ≡ w / 2 ^ 63 % 2 * 2 ^ 63 = bit_and_bit 63 w in
        let twice = mont_mul-Power x k k t t ht ht in
        elim (Bool-cases (bit_and w 0x8000000000000000 == 0)) [
          | inl e ↦
              let z : bit_and w 0x8000000000000000 ≡ 0 = ==→eq (bit_and w 0x8000000000000000) 0 e in
              let n : k + k ≡ k * 2 + w / 2 ^ 63 = omega arith in
              rw e (subst (λ i. Power x i (mont_mul M t t)) n twice)
          | inr e ↦
              let z : bit_and w 0x8000000000000000 ≢ 0 = ==→ne (bit_and w 0x8000000000000000) 0 e in
              let n : k + k + 1 ≡ k * 2 + w / 2 ^ 63 = omega arith in
              rw e (
                subst (λ i. Power x i (mont_mul M (mont_mul M t t) a)) n
                  (mont_mul-Power x (k + k) 1 (mont_mul M t t) a twice base-Power))
        ]

    pub exp_word-Power :
        (n k w : ℕ) (t : List ℕ)
        → IsU64 w
        → Power x k t
        → Power x (k * 2 ^ n + top_bits n w) (exp_word M n a w t)
    unfolding exp_word top_bits
    exp_word-Power zero k w t h ht =
        let e : k ≡ k * 2 ^ 0 + 0 = omega arith in subst (λ i. Power x i t) e ht
    exp_word-Power (suc n) k w t h ht =
        let later =
          exp_word-Power n (k * 2 + w / 2 ^ 63) (u64 (w <<< 1)) (exp_bit M a w t) (omega arith)
            (exp_bit-Power k w t h ht) in
        subst (λ i. Power x i (exp_word M n a (u64 (w <<< 1)) (exp_bit M a w t)))
          (top_bits_step n k w) later

    exp_words-Power :
        (k : ℕ) (ws t : List ℕ)
        → All IsU64 ws
        → Power x k t
        → Power x (joined k ws) (exp_words M a ws t)
    unfolding exp_words joined
    exp_words-Power k [] t h ht = ht
    exp_words-Power k (w ∷ ws) t h ht =
        let word =
          subst (λ i. Power x (k * 2 ^ 64 + i) (exp_word M 64 a w t)) (top_bits_all w h.0)
            (exp_word-Power 64 k w t h.0 ht) in
        exp_words-Power (k * 2 ^ 64 + w) ws (exp_word M 64 a w t) h.1 word

    neg-Power : Power x 0 M.neg
    neg-Power =
        let one : 1 * 2 ^ 256 ≡ value M.neg + value M.modulus * 1 =
          omega (arith, fits.complement) in
        subst (λ n. Form M n M.neg) (sym (pow-zero x))
          (record {
            element = record {
              words = fits.neg_words;
              reduced = omega (arith, fits.complement, fits.large);
            };
            residue =
                remainder (value M.modulus) (value M.neg) 1 (1 * 2 ^ 256)
                  (omega (arith, fits.complement, fits.large)) one;
          })

    pub mont_exp-Power : (e : List ℕ) → IsWords 4 e → Power x (value e) (mont_exp M a e)
    unfolding mont_exp
    mont_exp-Power e h =
        subst (λ i. Power x i (exp_words M a (reverse e) M.neg)) (joined-reverse e)
          (exp_words-Power 0 (reverse e) M.neg (All-reverse IsU64 e h.words) neg-Power)
