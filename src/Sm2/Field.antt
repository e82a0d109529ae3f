-- ===== src/Sm2/Field.antt =====
-- The fields of src/sm2_z256.c: arithmetic modulo p, the prime of the coordinates, and modulo n, the
-- order of the group.
pub mod Constants
pub mod Laws
pub mod Inverse
pub mod Root
use Prim.Native.Nat.{Ordering}
use gm_ssl.Base.{ℕ, zero, suc, List, [], ◌∷◌, Option, none, some}
use gm_ssl.Sm2.Limbs.{z256_cmp}
use gm_ssl.Sm2.Modular
use gm_ssl.Sm2.Modular.{Modulus}

unfoldable pub p_modulus : Modulus
p_modulus = record {
  modulus = 0xffffffffffffffff ∷ 0xffffffff00000000 ∷ 0xffffffffffffffff ∷ 0xfffffffeffffffff ∷ [];
  neg = 1 ∷ 0xffffffff ∷ 0 ∷ 0x100000000 ∷ [];
  prime = 1 ∷ 0xffffffff00000001 ∷ 0xfffffffe00000000 ∷ 0xfffffffc00000001 ∷ [];
  square = 0x200000003 ∷ 0x2ffffffff ∷ 0x100000001 ∷ 0x400000002 ∷ [];
}

unfoldable pub n_modulus : Modulus
n_modulus = record {
  modulus = 0x53bbf40939d54123 ∷ 0x7203df6b21c6052b ∷ 0xffffffffffffffff ∷ 0xfffffffeffffffff ∷ [];
  neg = 0xac440bf6c62abedd ∷ 0x8dfc2094de39fad4 ∷ 0 ∷ 0x100000000 ∷ [];
  prime = 0x327f9e8872350975 ∷ 0xdf1e8d34fc8319a5 ∷ 0x2b0068d3b08941d4 ∷ 0x6f39132f82e4c7bc ∷ [];
  square = 0x901192af7c114f20 ∷ 0x3464504ade6fa2fa ∷ 0x620fc84c3affe0d4 ∷ 0x1eb5e412a22b3d3b ∷ [];
}

unfoldable pub modp_add : List ℕ → List ℕ → List ℕ
modp_add a b = Modular.mod_add p_modulus a b

unfoldable pub modp_sub : List ℕ → List ℕ → List ℕ
modp_sub a b = Modular.mod_sub p_modulus a b

unfoldable pub modp_dbl : List ℕ → List ℕ
modp_dbl a = modp_add a a

unfoldable pub modp_tri : List ℕ → List ℕ
modp_tri a = modp_add (modp_add a a) a

unfoldable pub modp_neg : List ℕ → List ℕ
modp_neg a = Modular.mod_neg p_modulus a

unfoldable pub modp_haf : List ℕ → List ℕ
modp_haf a = Modular.mod_haf p_modulus a

unfoldable pub modp_mont_mul : List ℕ → List ℕ → List ℕ
modp_mont_mul a b = Modular.mont_mul p_modulus a b

unfoldable pub modp_mont_sqr : List ℕ → List ℕ
modp_mont_sqr a = modp_mont_mul a a

unfoldable pub modp_from_mont : List ℕ → List ℕ
modp_from_mont a = Modular.from_mont p_modulus a

unfoldable pub modp_to_mont : List ℕ → List ℕ
modp_to_mont a = Modular.to_mont p_modulus a

unfoldable pub modp_mont_exp : List ℕ → List ℕ → List ℕ
modp_mont_exp a e = Modular.mont_exp p_modulus a e

-- `for (i = 0; i < n; i++) sqr(t, t)`.
unfoldable pub squarings : ℕ → List ℕ → List ℕ
squarings zero t = t
squarings (suc n) t = squarings n (modp_mont_sqr t)

-- The variables of `sm2_z256_modp_mont_inv` that its parts pass on. A value of `a3` that the source
-- overwrites unread is left out.
pub record Chain : Type 0 where
  pub a2 : List ℕ
  pub a3 : List ℕ
  pub a4 : List ℕ
  pub a5 : List ℕ

-- Up to the first 31 set bits in `a5`.
unfoldable pub inv_start : List ℕ → Chain
inv_start a =
    let a1 = modp_mont_sqr a in
    let a2 = modp_mont_mul a1 a in
    let a3 = modp_mont_mul (squarings 2 a2) a2 in
    let a4 = modp_mont_mul (squarings 4 a3) a3 in
    let eight = modp_mont_mul (squarings 8 a4) a4 in
    let sixteen = modp_mont_mul (squarings 8 eight) a4 in
    let more = modp_mont_mul (squarings 4 sixteen) a3 in
    let most = modp_mont_mul (squarings 2 more) a2 in
    record { a2 = a2; a3 = a3; a4 = a4; a5 = modp_mont_mul (modp_mont_sqr most) a }

-- Up to the first pair of `a2` and `a3` after 33 squarings.
unfoldable pub inv_middle : List ℕ → Chain → Chain
inv_middle a c =
    let even = modp_mont_sqr c.a5 in
    let shifted = squarings 31 even in
    let a4 = modp_mont_mul (modp_mont_sqr (modp_mont_mul shifted even)) a in
    let a3 = modp_mont_mul a4 c.a2 in
    let a5 = squarings 33 shifted in
    let a2 = modp_mont_mul a5 a3 in record { a2 = a2; a3 = modp_mont_mul a2 a3; a4 = a4; a5 = a5 }

-- The part that the source has four times.
unfoldable pub inv_round : Chain → Chain
inv_round c =
    let a5 = squarings 32 c.a5 in
    let a2 = modp_mont_mul a5 c.a3 in
    record { a2 = a2; a3 = modp_mont_mul a2 c.a3; a4 = modp_mont_mul a2 c.a4; a5 = a5 }

unfoldable pub modp_mont_inv : List ℕ → List ℕ
modp_mont_inv a =
    let c = inv_round (inv_round (inv_round (inv_round (inv_middle a (inv_start a))))) in
    modp_mont_mul c.a4 (squarings 32 c.a5)

abbrev pub sqrt_exp : List ℕ
sqrt_exp = 0x4000000000000000 ∷ 0xffffffffc0000000 ∷ 0xffffffffffffffff ∷ 0x3fffffffbfffffff ∷ []

-- The end of a root's computation: it stands if the comparison found its square equal.
unfoldable pub root_if : Ordering → List ℕ → Option (List ℕ)
root_if Ordering.lt r = none
root_if Ordering.gt r = none
root_if Ordering.eq r = some r

unfoldable pub modp_mont_sqrt : List ℕ → Option (List ℕ)
modp_mont_sqrt a = let r = modp_mont_exp a sqrt_exp in root_if (z256_cmp (modp_mont_sqr r) a) r

unfoldable pub modn_add : List ℕ → List ℕ → List ℕ
modn_add a b = Modular.mod_add n_modulus a b

unfoldable pub modn_sub : List ℕ → List ℕ → List ℕ
modn_sub a b = Modular.mod_sub n_modulus a b

unfoldable pub modn_neg : List ℕ → List ℕ
modn_neg a = Modular.mod_neg n_modulus a

unfoldable pub modn_mont_mul : List ℕ → List ℕ → List ℕ
modn_mont_mul a b = Modular.mont_mul n_modulus a b

unfoldable pub modn_mont_sqr : List ℕ → List ℕ
modn_mont_sqr a = modn_mont_mul a a

unfoldable pub modn_from_mont : List ℕ → List ℕ
modn_from_mont a = Modular.from_mont n_modulus a

unfoldable pub modn_to_mont : List ℕ → List ℕ
modn_to_mont a = Modular.to_mont n_modulus a

unfoldable pub modn_mul : List ℕ → List ℕ → List ℕ
modn_mul a b = modn_from_mont (modn_mont_mul (modn_to_mont a) (modn_to_mont b))

unfoldable pub modn_sqr : List ℕ → List ℕ
modn_sqr a = modn_from_mont (modn_mont_sqr (modn_to_mont a))

unfoldable pub modn_mont_exp : List ℕ → List ℕ → List ℕ
modn_mont_exp a e = Modular.mont_exp n_modulus a e

unfoldable pub modn_exp : List ℕ → List ℕ → List ℕ
modn_exp a e = modn_from_mont (modn_mont_exp (modn_to_mont a) e)

abbrev pub n_minus_two : List ℕ
n_minus_two = 0x53bbf40939d54121 ∷ 0x7203df6b21c6052b ∷ 0xffffffffffffffff ∷ 0xfffffffeffffffff ∷ []

-- A loop over set bits: a squaring and a product each time.
unfoldable pub set_bits : ℕ → List ℕ → List ℕ → List ℕ
set_bits zero a t = t
set_bits (suc n) a t = set_bits n a (modn_mont_mul (modn_mont_sqr t) a)

unfoldable pub modn_mont_inv : List ℕ → List ℕ
modn_mont_inv a =
    let t = set_bits 96 a (modn_mont_sqr (set_bits 30 a a)) in
    let t' = Modular.exp_word n_modulus 64 a 0x7203df6b21c6052b t in
    Modular.exp_word n_modulus 64 a 0x53bbf40939d54121 t'

unfoldable pub modn_inv : List ℕ → List ℕ
modn_inv a = modn_from_mont (modn_mont_inv (modn_to_mont a))
