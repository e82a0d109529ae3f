-- ===== src/Sm2/Tests.antt =====
-- Known answers, and the theorems at concrete inputs.
use gm_ssl.Base.{
  ℕ, zero, suc, ◌-◌, ◌*◌, ◌%◌, ◌^◌, ◌<◌, arith, ◌≡◌, refl, List, [], ◌∷◌, Option, some,
}
use gm_ssl.Sm2.Limbs.Laws.{value, IsWords}
use gm_ssl.Sm2.Mul.{split, mul_row, mul_rows, pack, z256_mul}
use gm_ssl.Sm2.Mul.Laws.{z256_mul_lem}
use gm_ssl.Sm2.Field.{
  p_modulus, n_modulus, modn_mul, modp_from_mont, modp_mont_inv, modp_to_mont, modn_inv,
  modp_mont_sqrt, modp_mont_exp, modp_mont_sqr, modp_mont_mul, root_if,
}
use gm_ssl.Sm2.Modular.{mont_exp, exp_words, exp_word, exp_bit, mont_sqr, mont_mul, fit}
use gm_ssl.Sm2.Limbs.{
  z256_add, z256_sub, z512_add, z256_cmp, add_limbs, sub_limbs, cmp_limbs, add_word, sub_word,
}
use gm_ssl.Sm2.Field.Constants.{prime_p, order_n}
use gm_ssl.Sm2.Field.Laws.{ElementP, ElementN, modn_mul_lem}
use gm_ssl.Sm2.Field.Inverse.{modp_mont_inv_lem}
use gm_ssl.Sm2.Field.Inverse.Order.{modn_inv_lem}
use gm_ssl.Sm2.Field.Root.{modp_mont_sqrt-some}
use gm_ssl.Sm2.Bytes.{z256_rand_range, drawn}
use gm_ssl.Sm2.Bytes.Laws.{Rejected, z256_rand_range-drawn}

-- Two numbers of four words below p and n.
abbrev small : List ℕ
small = 7 ∷ 0 ∷ 0 ∷ 0 ∷ []

abbrev large : List ℕ
large = 0xffffffffffffffff ∷ 2 ∷ 0xffffffffffffffff ∷ 0x7fffffffffffffff ∷ []

small-IsWords : IsWords 4 small
small-IsWords = record {
  words = (omega arith, (omega arith, (omega arith, (omega arith, tt))));
  size = refl;
}

large-IsWords : IsWords 4 large
large-IsWords = record {
  words = (omega arith, (omega arith, (omega arith, (omega arith, tt))));
  size = refl;
}

small-ElementP : ElementP small
unfolding value p_modulus
small-ElementP = record { words = small-IsWords; reduced = omega arith }

large-ElementP : ElementP large
unfolding value p_modulus
large-ElementP = record { words = large-IsWords; reduced = omega arith }

small-ElementN : ElementN small
unfolding value n_modulus
small-ElementN = record { words = small-IsWords; reduced = omega arith }

large-ElementN : ElementN large
unfolding value n_modulus
large-ElementN = record { words = large-IsWords; reduced = omega arith }

z256_mul_runs :
    z256_mul small large
    ≡ 0xfffffffffffffff9 ∷ 20 ∷ 0xfffffffffffffff9 ∷ 0x7fffffffffffffff ∷ 3 ∷ 0 ∷ 0 ∷ 0 ∷ []
unfolding z256_mul split mul_row mul_rows pack
z256_mul_runs = refl

z256_mul_lem_example :
    IsWords 8 (z256_mul small large) × (value (z256_mul small large) ≡ value small * value large)
z256_mul_lem_example = z256_mul_lem small large small-IsWords large-IsWords

modn_mul_lem_example :
    ElementN (modn_mul small large)
    × (value (modn_mul small large) ≡ (value small * value large) % order_n)
modn_mul_lem_example = modn_mul_lem small large small-ElementN large-ElementN

modp_mont_inv_lem_example :
    ElementP (modp_from_mont (modp_mont_inv (modp_to_mont small)))
    × (value (modp_from_mont (modp_mont_inv (modp_to_mont small)))
        ≡ value small ^ (prime_p - 2) % prime_p)
modp_mont_inv_lem_example = modp_mont_inv_lem small small-ElementP

modn_inv_lem_example :
    ElementN (modn_inv small) × (value (modn_inv small) ≡ value small ^ (order_n - 2) % order_n)
modn_inv_lem_example = modn_inv_lem small small-ElementN

-- A generator that delivers a number that is too large, and then one that is not.
abbrev generator : ℕ → Option (List ℕ)
generator zero = some large
generator (suc i) = some small

large-Rejected : (i : ℕ) → i < 1 → Rejected (9 ∷ 0 ∷ 0 ∷ 0 ∷ []) (generator i)
unfolding value
large-Rejected zero h = record {
  number = large;
  delivered = refl;
  words = large-IsWords;
  large = omega arith;
}
large-Rejected (suc i) h = absurd (omega arith)

nine-IsWords : IsWords 4 (9 ∷ 0 ∷ 0 ∷ 0 ∷ [])
nine-IsWords = record {
  words = (omega arith, (omega arith, (omega arith, (omega arith, tt))));
  size = refl;
}

small_below : value small < value (9 ∷ 0 ∷ 0 ∷ 0 ∷ [])
unfolding value
small_below = omega arith

z256_rand_range-drawn_example : z256_rand_range generator (9 ∷ 0 ∷ 0 ∷ 0 ∷ []) ≡ drawn small
z256_rand_range-drawn_example =
    z256_rand_range-drawn 1 generator (9 ∷ 0 ∷ 0 ∷ 0 ∷ []) small (omega arith) nine-IsWords
      large-Rejected refl small-IsWords small_below

-- The number 1 in Montgomery form, which is its own root.
abbrev mont_one : List ℕ
mont_one = 1 ∷ 0xffffffff ∷ 0 ∷ 0x100000000 ∷ []

mont_one-ElementP : ElementP mont_one
unfolding value p_modulus
mont_one-ElementP = record {
  words = record {
    words = (omega arith, (omega arith, (omega arith, (omega arith, tt))));
    size = refl;
  };
  reduced = omega arith;
}

mont_one_root : modp_mont_sqrt mont_one ≡ some mont_one
unfolding modp_mont_sqrt modp_mont_exp modp_mont_sqr modp_mont_mul p_modulus root_if mont_exp
    exp_words exp_word exp_bit mont_sqr mont_mul fit z256_mul split mul_row mul_rows pack z256_add
    z256_sub z512_add z256_cmp add_limbs sub_limbs cmp_limbs add_word sub_word
mont_one_root = refl

modp_mont_sqrt-some_example :
    ElementP mont_one
    × ((value (modp_from_mont mont_one) * value (modp_from_mont mont_one)) % prime_p
        ≡ value (modp_from_mont mont_one))
modp_mont_sqrt-some_example = modp_mont_sqrt-some mont_one mont_one mont_one-ElementP mont_one_root
