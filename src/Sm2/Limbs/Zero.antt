-- ===== src/Sm2/Limbs/Zero.antt =====
-- The test for zero, which has no branch.
use gm_ssl.Base.{ℕ, ◌-◌, ◌^◌, ◌<◌, arith, ◌≡◌, ◌≢◌, refl}
use gm_ssl.Base.{List, [], ◌∷◌, All, IsU64, u64, bit_or, ◌==◌, Bool-cases, inl, inr, ==→eq, ==→ne}
use gm_ssl.Base.Bits.{zero-bit_and, bit_or-lt, le-bit_or_left, le-bit_or_right}
use gm_ssl.Sm2.Limbs.{is_zero, z256_is_zero}
use gm_ssl.Sm2.Limbs.Laws.{value}

is_zero-suc : (w : ℕ) → IsU64 w → w ≢ 0 → is_zero w ≡ 0
unfolding is_zero
is_zero-suc w h n =
    let size : bit_or w (u64 (2 ^ 64 - w)) < 2 ^ 64 =
      bit_or-lt 64 w (u64 (2 ^ 64 - w)) h (omega arith) in
    omega (arith, size, le-bit_or_left w (u64 (2 ^ 64 - w)), le-bit_or_right w (u64 (2 ^ 64 - w)))

is_zero-zero : (w : ℕ) → w ≡ 0 → is_zero w ≡ 1
unfolding is_zero
is_zero-zero w e = rw e refl

-- A number of words is 0 exactly when the test gives 1.
pub z256_is_zero-zero : (ws : List ℕ) → value ws ≡ 0 → z256_is_zero ws ≡ 1
unfolding z256_is_zero value
z256_is_zero-zero [] e = refl
z256_is_zero-zero (w ∷ []) e = is_zero-zero w (omega (arith, e))
z256_is_zero-zero (w ∷ v ∷ ws) e =
    let first : w ≡ 0 = omega (arith, e) in
    let rest : value (v ∷ ws) ≡ 0 = omega (arith, e) in
    rw (is_zero-zero w first, z256_is_zero-zero (v ∷ ws) rest) refl

pub z256_is_zero-suc : (ws : List ℕ) → All IsU64 ws → value ws ≢ 0 → z256_is_zero ws ≡ 0
unfolding z256_is_zero value
z256_is_zero-suc [] h n = absurd (n refl)
z256_is_zero-suc (w ∷ []) h n = is_zero-suc w h.0 (omega (arith, n))
z256_is_zero-suc (w ∷ v ∷ ws) h n = elim (Bool-cases (w == 0)) [
  | inl z ↦
      let first : w ≡ 0 = ==→eq w 0 z in
      let rest : value (v ∷ ws) ≢ 0 = omega (arith, n) in
      rw (is_zero-zero w first, z256_is_zero-suc (v ∷ ws) h.1 rest) refl
  | inr s ↦ rw (is_zero-suc w h.0 (==→ne w 0 s)) (zero-bit_and (z256_is_zero (v ∷ ws)))
]
