-- ===== src/Sm2/Field/Constants.antt =====
-- The constants of p and of n are what their names say, and fit each other.
use gm_ssl.Base.{ℕ, ◌+◌, ◌-◌, ◌^◌, arith, ◌≡◌, refl, [], ◌∷◌, IsU64}
use gm_ssl.Sm2.Limbs.Laws.{value, IsWords}
use gm_ssl.Sm2.Field.{p_modulus, n_modulus, sqrt_exp, n_minus_two}
use gm_ssl.Sm2.Modular.Laws.{IsModulus}

abbrev pub prime_p : ℕ
prime_p = 2 ^ 256 - 2 ^ 224 - 2 ^ 96 + 2 ^ 64 - 1

abbrev pub order_n : ℕ
order_n = 0xfffffffeffffffffffffffffffffffff7203df6b21c6052b53bbf40939d54123

-- The inverses of 2 ^ 256 modulo p and modulo n.
abbrev pub p_inverse : ℕ
p_inverse = 0xfffffffb00000005fffffffc00000002fffffffd00000006fffffff900000004

abbrev pub n_inverse : ℕ
n_inverse = 0x6f39132f13abb48ca81ba1178588d900f0e551783f95fa1213e93c0567b935ea

pub p_modulus-value : value p_modulus.modulus ≡ prime_p
unfolding p_modulus value
p_modulus-value = refl

pub n_modulus-value : value n_modulus.modulus ≡ order_n
unfolding n_modulus value
n_modulus-value = refl

pub four-IsWords :
    (a b c d : ℕ) → IsU64 a → IsU64 b → IsU64 c → IsU64 d → IsWords 4 (a ∷ b ∷ c ∷ d ∷ [])
four-IsWords a b c d ha hb hc hd = record { words = (ha, (hb, (hc, (hd, tt)))); size = refl }

pub p_modulus-IsModulus : IsModulus p_modulus p_inverse
unfolding p_modulus value
p_modulus-IsModulus = record {
  modulus_words = four-IsWords _ _ _ _ (omega arith) (omega arith) (omega arith) (omega arith);
  neg_words = four-IsWords _ _ _ _ (omega arith) (omega arith) (omega arith) (omega arith);
  prime_words = four-IsWords _ _ _ _ (omega arith) (omega arith) (omega arith) (omega arith);
  square_words = four-IsWords _ _ _ _ (omega arith) (omega arith) (omega arith) (omega arith);
  complement = refl;
  inverts = refl;
  square = refl;
  odd = refl;
  large = omega arith;
}

pub n_modulus-IsModulus : IsModulus n_modulus n_inverse
unfolding n_modulus value
n_modulus-IsModulus = record {
  modulus_words = four-IsWords _ _ _ _ (omega arith) (omega arith) (omega arith) (omega arith);
  neg_words = four-IsWords _ _ _ _ (omega arith) (omega arith) (omega arith) (omega arith);
  prime_words = four-IsWords _ _ _ _ (omega arith) (omega arith) (omega arith) (omega arith);
  square_words = four-IsWords _ _ _ _ (omega arith) (omega arith) (omega arith) (omega arith);
  complement = refl;
  inverts = refl;
  square = refl;
  odd = refl;
  large = omega arith;
}

pub sqrt_exp-IsWords : IsWords 4 sqrt_exp
sqrt_exp-IsWords = four-IsWords _ _ _ _ (omega arith) (omega arith) (omega arith) (omega arith)

pub n_minus_two-IsWords : IsWords 4 n_minus_two
n_minus_two-IsWords = four-IsWords _ _ _ _ (omega arith) (omega arith) (omega arith) (omega arith)
