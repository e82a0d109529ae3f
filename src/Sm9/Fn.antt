-- ===== src/Sm9/Fn.antt =====
-- The arithmetic of src/sm9_z256.c modulo the order n: products by Barrett's reduction, and powers.
pub mod Barrett
pub mod Words
pub mod Laws
pub mod Powers
use gm_ssl.Base.{ℕ, zero, suc, ◌+◌, ◌-◌, ◌*◌, ◌%◌, ◌^◌, List, [], ◌∷◌, bit_and, u64, ◌<<<◌}
use gm_ssl.Base.{
  take, drop, get_or, replicate, reverse, Bool, true, false, ◌||◌, ltb, ◌==◌, if◌then◌else◌,
}
use gm_ssl.Sm2.Limbs.{z256_sub, z256_cmp}
use gm_ssl.Sm2.Mul.{split, mul_rows, pack, z256_mul}
use gm_ssl.Sm2.Modular.{one, at_least}

-- `SM9_Z256_N` and `SM9_Z256_N_MINUS_TWO`.
abbrev pub n_words : List ℕ
n_words = 0xe56ee19cd69ecf25 ∷ 0x49f2934b18ea8bee ∷ 0xd603ab4ff58ec744 ∷ 0xb640000002a3a6f1 ∷ []

abbrev pub n_minus_two : List ℕ
n_minus_two = 0xe56ee19cd69ecf23 ∷ 0x49f2934b18ea8bee ∷ 0xd603ab4ff58ec744 ∷ 0xb640000002a3a6f1 ∷ []

-- `SM9_Z256_N_BARRETT_MU`: 2 ^ 512 divided by n.
abbrev pub n_barrett_mu : List ℕ
n_barrett_mu =
    0x74df4fd4dfc97c2f ∷ 0x9c95d85ec9c073b0 ∷ 0x55f73aebdcd1312c ∷ 0x67980e0beb5759a6 ∷ 0x1 ∷ []

-- The text of `sm9_z256_mul`, with five words for four.
unfoldable pub z320_mul : List ℕ → List ℕ → List ℕ
z320_mul a b = pack (mul_rows (split a) (split b) (replicate 10 0))

-- The words of `z` less those of `s` below 2 ^ 320; the rounds for the low four words, with their
-- borrow, are those of `sm9_z256_sub`.
unfoldable pub z320_sub : List ℕ → List ℕ → ℕ → List ℕ × ℕ
z320_sub z s s4 =
    let (r, c) = z256_sub (take 4 z) (take 4 s) in
    let t = u64 (get_or z 4 0 + 2 ^ 64 - c) in (r, u64 (t + 2 ^ 64 - s4))

-- `if (s[4] > 0 || sm9_z256_cmp(r, SM9_Z256_N) >= 0)`, where `s[4]` is the fifth word.
unfoldable pub less_n : List ℕ × ℕ → List ℕ
less_n (r, r4) = if ltb 0 r4 || at_least (z256_cmp r n_words) then (z256_sub r n_words).0 else r

unfoldable pub modn_mul : List ℕ → List ℕ → List ℕ
modn_mul a b =
    let z = z256_mul a b in
    let h = z320_mul (drop 3 z) n_barrett_mu in
    let s = z256_mul (take 4 (drop 5 h)) n_words in
    let s4 = u64 (get_or s 4 0 + u64 (get_or n_words 0 0 * get_or h 9 0)) in
    less_n (z320_sub z s s4)

-- One bit of an exponent, the top bit of `w`.
unfoldable pub pow_bit : List ℕ → ℕ → List ℕ → List ℕ
pow_bit a w t =
    let t' = modn_mul t t in if bit_and w 0x8000000000000000 == 0 then t' else modn_mul t' a

unfoldable pub pow_word : ℕ → List ℕ → ℕ → List ℕ → List ℕ
pow_word zero a w t = t
pow_word (suc n) a w t = pow_word n a (u64 (w <<< 1)) (pow_bit a w t)

unfoldable pub pow_words : List ℕ → List ℕ → List ℕ → List ℕ
pow_words a [] t = t
pow_words a (w ∷ ws) t = pow_words a ws (pow_word 64 a w t)

unfoldable pub modn_pow : List ℕ → List ℕ → List ℕ
modn_pow a e = pow_words a (reverse e) one

unfoldable pub modn_inv : List ℕ → List ℕ
modn_inv a = modn_pow a n_minus_two
