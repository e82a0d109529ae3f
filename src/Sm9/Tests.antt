-- ===== src/Sm9/Tests.antt =====
-- Known answers, and the theorems at concrete inputs.
use gm_ssl.Base.{ℕ, ◌+◌, ◌-◌, ◌*◌, ◌%◌, arith, ◌≡◌, ◌≢◌, ◌^◌, refl, List, [], ◌∷◌}
use gm_ssl.Sm2.Limbs.{z256_sub, sub_limbs, sub_word}
use gm_ssl.Sm2.Limbs.Laws.{value}
use gm_ssl.Sm2.Modular.{mod_neg}
use gm_ssl.Sm2.Modular.Laws.{Element}
use gm_ssl.Sm9.Fp.{p_modulus, modp_neg, modp_to_mont}
use gm_ssl.Sm9.Fp.Laws.{prime_p, p_inverse, elements-Stands, modp_to_mont-Stands}
use gm_ssl.Sm9.Fn.{modn_mul, modn_pow}
use gm_ssl.Sm9.Fn.Barrett.{n}
use gm_ssl.Sm9.Fn.Laws.{IsResidue, modn_mul-product}
use gm_ssl.Sm9.Fn.Powers.{modn_pow_lem}
use gm_ssl.Sm9.Fp2.{Fp2, fp2_mul, fp2_inv}
use gm_ssl.Sm9.Fp2.Laws.{StandsFor, fp2_mul-StandsFor}
use gm_ssl.Sm9.Fp2.Loose.{norm, LooseSecond}
use gm_ssl.Sm9.Fp2.Inverse.{fp2_inv-LooseSecond}

-- The negation of 0 is not reduced.
modp_neg_runs : modp_neg (0 ∷ 0 ∷ 0 ∷ 0 ∷ []) ≡ p_modulus.modulus
unfolding modp_neg mod_neg p_modulus z256_sub sub_limbs sub_word
modp_neg_runs = refl

abbrev three : List ℕ
three = 3 ∷ 0 ∷ 0 ∷ 0 ∷ []

abbrev large : List ℕ
large = 5 ∷ 6 ∷ 7 ∷ 0x8000000000000000 ∷ []

three-Element : Element p_modulus three
unfolding value p_modulus
three-Element = record {
  words = record {
    words = (omega arith, (omega arith, (omega arith, (omega arith, tt))));
    size = refl;
  };
  reduced = omega arith;
}

large-Element : Element p_modulus large
unfolding value p_modulus
large-Element = record {
  words = record {
    words = (omega arith, (omega arith, (omega arith, (omega arith, tt))));
    size = refl;
  };
  reduced = omega arith;
}

abbrev pair : Fp2
pair = record { c0 = modp_to_mont three; c1 = modp_to_mont large }

pair-StandsFor : StandsFor (value three) (value large) pair
pair-StandsFor = record {
  first = modp_to_mont-Stands three three-Element;
  second = modp_to_mont-Stands large large-Element;
}

fp2_mul-StandsFor_example :
    StandsFor
      (value three * value three + (prime_p - 2) * (value large * value large))
      (value three * value large + value large * value three)
      (fp2_mul pair pair)
fp2_mul-StandsFor_example =
    fp2_mul-StandsFor (value three) (value large) (value three) (value large) pair pair
      pair-StandsFor pair-StandsFor

-- Two coordinates as they stand in memory.
abbrev raw : Fp2
raw = record { c0 = three; c1 = large }

raw-StandsFor : StandsFor (value three * p_inverse) (value large * p_inverse) raw
raw-StandsFor = record {
  first = elements-Stands three three-Element;
  second = elements-Stands large large-Element;
}

three_nonzero : value three ≢ 0
unfolding value
three_nonzero = omega arith

large_nonzero : value large ≢ 0
unfolding value
large_nonzero = omega arith

fp2_inv-LooseSecond_example :
    LooseSecond
      (value three
        * p_inverse
        * norm (value three * p_inverse) (value large * p_inverse) ^ (prime_p - 2))
      ((prime_p - 1)
        * (value large
            * p_inverse
            * norm (value three * p_inverse) (value large * p_inverse) ^ (prime_p - 2)))
      (fp2_inv raw)
fp2_inv-LooseSecond_example =
    fp2_inv-LooseSecond (value three * p_inverse) (value large * p_inverse) raw raw-StandsFor
      three_nonzero large_nonzero

three-IsResidue : IsResidue three
unfolding value
three-IsResidue = record { words = three-Element.words; reduced = omega arith }

large-IsResidue : IsResidue large
unfolding value
large-IsResidue = record { words = large-Element.words; reduced = omega arith }

modn_mul-product_example :
    IsResidue (modn_mul three large)
    × (value (modn_mul three large) ≡ value three * value large % n)
modn_mul-product_example = modn_mul-product three large three-IsResidue large-IsResidue

modn_pow_lem_example :
    IsResidue (modn_pow large three)
    × (value (modn_pow large three) ≡ value large ^ value three % n)
modn_pow_lem_example = modn_pow_lem large three large-IsResidue three-Element.words
