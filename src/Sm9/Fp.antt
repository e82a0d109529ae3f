-- ===== src/Sm9/Fp.antt =====
-- The prime field of SM9: sm9_z256_modp_add to sm9_z256_modp_mont_inv of src/sm9_z256.c.
pub mod Laws
use gm_ssl.Base.{ℕ, List, [], ◌∷◌}
use gm_ssl.Sm2.Modular
use gm_ssl.Sm2.Modular.{Modulus}

unfoldable pub p_modulus : Modulus
p_modulus = record {
  modulus = 0xe56f9b27e351457d ∷ 0x21f2934b1a7aeedb ∷ 0xd603ab4ff58ec745 ∷ 0xb640000002a3a6f1 ∷ [];
  neg = 0x1a9064d81caeba83 ∷ 0xde0d6cb4e5851124 ∷ 0x29fc54b00a7138ba ∷ 0x49bffffffd5c590e ∷ [];
  prime = 0x892bc42c2f2ee42b ∷ 0x181ae39613c8dbaf ∷ 0x966a4b291522b137 ∷ 0xafd2bac5558a13b3 ∷ [];
  square = 0x27dea312b417e2d2 ∷ 0x88f8105fae1a5d3f ∷ 0xe479b522d6706e7b ∷ 0x2ea795a656f62fbd ∷ [];
}

abbrev pub p_minus_two : List ℕ
p_minus_two = 0xe56f9b27e351457b ∷ 0x21f2934b1a7aeedb ∷ 0xd603ab4ff58ec745 ∷ 0xb640000002a3a6f1 ∷ []

unfoldable pub modp_add : List ℕ → List ℕ → List ℕ
modp_add a b = Modular.mod_add p_modulus a b

unfoldable pub modp_sub : List ℕ → List ℕ → List ℕ
modp_sub a b = Modular.mod_sub p_modulus a b

unfoldable pub modp_dbl : List ℕ → List ℕ
modp_dbl a = modp_add a a

unfoldable pub modp_tri : List ℕ → List ℕ
modp_tri a = modp_add (modp_add a a) a

unfoldable pub modp_haf : List ℕ → List ℕ
modp_haf a = Modular.mod_haf p_modulus a

unfoldable pub modp_neg : List ℕ → List ℕ
modp_neg a = Modular.mod_neg p_modulus a

unfoldable pub modp_mont_mul : List ℕ → List ℕ → List ℕ
modp_mont_mul a b = Modular.mont_mul p_modulus a b

unfoldable pub modp_to_mont : List ℕ → List ℕ
modp_to_mont a = Modular.to_mont p_modulus a

unfoldable pub modp_from_mont : List ℕ → List ℕ
modp_from_mont a = Modular.from_mont p_modulus a

unfoldable pub modp_mont_sqr : List ℕ → List ℕ
modp_mont_sqr a = modp_mont_mul a a

unfoldable pub modp_mont_pow : List ℕ → List ℕ → List ℕ
modp_mont_pow a e = Modular.mont_exp p_modulus a e

unfoldable pub modp_mont_inv : List ℕ → List ℕ
modp_mont_inv a = modp_mont_pow a p_minus_two
