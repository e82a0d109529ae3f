-- ===== src/Sm2/Limbs/Words.antt =====
-- Numbers of a given count of words: their bounds, their parts, and the results of the operations.
use native.Mathlib.Nat.{mul_assoc, pow-succ'}
use Prim.Native.Nat.{compare}
use gm_ssl.Base.{ℕ, zero, suc, ◌+◌, ◌*◌, ◌^◌, ◌≤◌, ◌<◌, arith, ◌≡◌, sym, ap, ap₂, ◌∙◌}
use gm_ssl.Base.{
  List, [], ◌∷◌, ◌++◌, length, take, drop, All, All-take, All-drop, IsU64, length-take, length-drop,
}
use gm_ssl.Base.{take-append-drop}
use gm_ssl.Base.{refl}
use gm_ssl.Sm2.Limbs.{z256_add, z256_sub, z512_add, z256_cmp, add_limbs, sub_limbs}
use gm_ssl.Sm2.Limbs.Laws.{
  value, IsWords, Sums, Differs, add_limbs_lem, sub_limbs_lem, cmp_limbs-compare,
}

-- Words below other words.
pub value-append :
    (n : ℕ) (ws vs : List ℕ) → length ws ≡ n → value (ws ++ vs) ≡ value ws + (2 ^ 64) ^ n * value vs
unfolding value
value-append zero [] vs e = omega arith
value-append zero (w ∷ ws) vs e = absurd (omega arith)
value-append (suc n) [] vs e = absurd (omega arith)
value-append (suc n) (w ∷ ws) vs e =
    let later : value (ws ++ vs) ≡ value ws + (2 ^ 64) ^ n * value vs =
      value-append n ws vs (omega arith) in
    omega (
      arith,
      later,
      ap (λ k. k * value vs) (pow-succ' (2 ^ 64) n),
      mul_assoc (2 ^ 64) ((2 ^ 64) ^ n) (value vs),
    )

pub value-lt : (n : ℕ) (ws : List ℕ) → length ws ≡ n → All IsU64 ws → value ws < (2 ^ 64) ^ n
unfolding value
value-lt zero [] e h = omega arith
value-lt zero (w ∷ ws) e h = absurd (omega arith)
value-lt (suc n) [] e h = absurd (omega arith)
value-lt (suc n) (w ∷ ws) e h =
    let later : value ws < (2 ^ 64) ^ n = value-lt n ws (omega arith) h.1 in
    omega (arith, later, h.0, pow-succ' (2 ^ 64) n)

pub value_lt : (a : List ℕ) → IsWords 4 a → value a < 2 ^ 256
value_lt a h = value-lt 4 a h.size h.words

-- The two halves of a product.
pub low_high :
    (z : List ℕ)
    → IsWords 8 z
    → (value z ≡ value (take 4 z) + 2 ^ 256 * value (drop 4 z))
      × IsWords 4 (take 4 z)
      × IsWords 4 (drop 4 z)
low_high z h =
    let low : length (take 4 z) ≡ 4 = omega (arith, length-take 4 z, h.size) in
    let high : length (drop 4 z) ≡ 4 = omega (arith, length-drop 4 z, h.size) in
    (
      ap value (sym (take-append-drop 4 z)) ∙ value-append 4 (take 4 z) (drop 4 z) low,
      record { words = All-take IsU64 4 z h.words; size = low },
      record { words = All-drop IsU64 4 z h.words; size = high },
    )

pub one_word : (c : ℕ) → value (c ∷ []) ≡ c
unfolding value
one_word c = omega arith

pub z256_add_lem :
    (a b : List ℕ)
    → IsWords 4 a
    → IsWords 4 b
    → IsWords 4 (z256_add a b).0
      × ((z256_add a b).1 ≤ 1)
      × (value (z256_add a b).0 + 2 ^ 256 * (z256_add a b).1 ≡ value a + value b)
unfolding z256_add
z256_add_lem a b ha hb =
    let r = add_limbs 0 a b in
    let s : Sums a b 0 r =
      add_limbs_lem 0 a b (omega arith) (ha.size ∙ sym hb.size) ha.words hb.words in
    let size : length r.0 ≡ 4 = s.size ∙ ha.size in
    (
      record { words = s.words; size = size },
      s.carry,
      omega (arith, s.total, value-append 4 r.0 (r.1 ∷ []) size, one_word r.1),
    )

pub z512_add_lem :
    (a b : List ℕ)
    → IsWords 8 a
    → IsWords 8 b
    → IsWords 8 (z512_add a b).0
      × ((z512_add a b).1 ≤ 1)
      × (value (z512_add a b).0 + 2 ^ 512 * (z512_add a b).1 ≡ value a + value b)
unfolding z512_add
z512_add_lem a b ha hb =
    let r = add_limbs 0 a b in
    let s : Sums a b 0 r =
      add_limbs_lem 0 a b (omega arith) (ha.size ∙ sym hb.size) ha.words hb.words in
    let size : length r.0 ≡ 8 = s.size ∙ ha.size in
    (
      record { words = s.words; size = size },
      s.carry,
      omega (arith, s.total, value-append 8 r.0 (r.1 ∷ []) size, one_word r.1),
    )

pub z256_sub_lem :
    (a b : List ℕ)
    → IsWords 4 a
    → IsWords 4 b
    → IsWords 4 (z256_sub a b).0
      × ((z256_sub a b).1 ≤ 1)
      × (value a + 2 ^ 256 * (z256_sub a b).1 ≡ value (z256_sub a b).0 + value b)
unfolding z256_sub
z256_sub_lem a b ha hb =
    let r = sub_limbs 0 a b in
    let s : Differs a b 0 r =
      sub_limbs_lem 0 a b (omega arith) (ha.size ∙ sym hb.size) ha.words hb.words in
    (
      record { words = s.words; size = s.size ∙ ha.size },
      s.borrow,
      omega (arith, s.total, value-append 4 a (r.1 ∷ []) ha.size, one_word r.1),
    )

pub z256_cmp-compare :
    (a b : List ℕ) → IsWords 4 a → IsWords 4 b → z256_cmp a b ≡ compare (value a) (value b)
unfolding z256_cmp
z256_cmp-compare a b ha hb = cmp_limbs-compare a b (ha.size ∙ sym hb.size) ha.words hb.words

-- Words are determined by the number that they stand for.
pub value_injective :
    (n : ℕ) (as' bs : List ℕ) → IsWords n as' → IsWords n bs → value as' ≡ value bs → as' ≡ bs
unfolding value
value_injective n [] [] ha hb e = refl
value_injective n [] (b ∷ bs) ha hb e = absurd (omega (arith, ha.size, hb.size))
value_injective n (a ∷ as') [] ha hb e = absurd (omega (arith, ha.size, hb.size))
value_injective zero (a ∷ as') (b ∷ bs) ha hb e = absurd (omega (arith, ha.size))
value_injective (suc n) (a ∷ as') (b ∷ bs) ha hb e =
    let first : a ≡ b = omega (arith, ha.words.0, hb.words.0) in
    let rest : as' ≡ bs =
      value_injective n as' bs (record { words = ha.words.1; size = omega (arith, ha.size) })
        (record { words = hb.words.1; size = omega (arith, hb.size) })
        (omega (arith, ha.words.0, hb.words.0)) in
    ap₂ (λ w ws. w ∷ ws) first rest
