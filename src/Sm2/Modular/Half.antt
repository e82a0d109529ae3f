-- ===== src/Sm2/Modular/Half.antt =====
-- Halving and negation modulo a number.
use gm_ssl.Base.{ℕ, ◌+◌, ◌*◌, ◌/◌, ◌%◌, ◌^◌, ◌<◌, arith, ◌≡◌, ◌≢◌, refl, sym, ap, ◌∙◌}
use gm_ssl.Base.{
  List, [], ◌∷◌, ◌++◌, length, get_or, All, IsU64, u64, bit_and, bit_or, ◌<<<◌, ◌>>>◌, ◌==◌, ==→eq,
  ==→ne,
}
use gm_ssl.Base.{Bool-cases, inl, inr}
use gm_ssl.Base.Bits.{bit_and_mask, bit_or_fields, bit_or_comm}
use gm_ssl.Sm2.Limbs.{z256_add}
use gm_ssl.Sm2.Limbs.Laws.{value, IsWords}
use gm_ssl.Sm2.Limbs.Words.{value-append, one_word, value_lt, z256_add_lem, z256_sub_lem}
use gm_ssl.Sm2.Modular.{Modulus, half_words, mod_neg, mod_haf}
use gm_ssl.Sm2.Modular.Laws.{IsModulus, Element}

-- A word moved to the right below a bit.
half_word :
    (r c : ℕ) → IsU64 r → bit_or (r >>> 1) (u64 (bit_and c 1 <<< 63)) ≡ r / 2 + c % 2 * 2 ^ 63
half_word r c h =
    let bit : bit_and c 1 ≡ c % 2 = bit_and_mask 1 c in
    let low : u64 (bit_and c 1 <<< 63) ≡ c % 2 * 2 ^ 63 = omega (arith, bit) in
    ap (λ b. bit_or (r >>> 1) b) low
    ∙ bit_or_comm (r >>> 1) (c % 2 * 2 ^ 63)
    ∙ bit_or_fields 63 (c % 2) (r / 2) (omega arith)
    ∙ omega arith

record Halved (c : ℕ) (ws r : List ℕ) : Type 0 where
  pub total : value r ≡ value (ws ++ (c % 2 ∷ [])) / 2
  pub words : All IsU64 r
  pub size : length r ≡ length ws

half_words_lem :
    (c : ℕ) (ws : List ℕ) → 0 < length ws → All IsU64 ws → Halved c ws (half_words c ws)
unfolding half_words value
half_words_lem c [] pos h = absurd (omega arith)
half_words_lem c (r ∷ []) pos h =
    let word = half_word r c h.0 in
    record { total = omega (arith, word); words = (omega (arith, word, h.0), tt); size = refl }
half_words_lem c (r ∷ s ∷ rs) pos h =
    let word = half_word r s h.0 in
    let later : Halved c (s ∷ rs) (half_words c (s ∷ rs)) =
      half_words_lem c (s ∷ rs) (omega arith) h.1 in
    record {
      total = omega (arith, word, later.total);
      words = (omega (arith, word, h.0), later.words);
      size = omega (arith, later.size);
    }

half_four :
    (c : ℕ) (ws : List ℕ)
    → IsWords 4 ws
    → IsWords 4 (half_words c ws) × (value (half_words c ws) ≡ (value ws + 2 ^ 256 * (c % 2)) / 2)
half_four c ws h =
    let half = half_words_lem c ws (omega (arith, h.size)) h.words in
    (
      record { words = half.words; size = half.size ∙ h.size },
      omega (arith, half.total, value-append 4 ws (c % 2 ∷ []) h.size, one_word (c % 2)),
    )

-- The lowest word decides whether a number is odd.
parity : (a : List ℕ) → bit_and (get_or a 0 0) 1 ≡ value a % 2
unfolding value
parity [] = bit_and_mask 1 0
parity (w ∷ ws) = omega (arith, bit_and_mask 1 w)

module _ (M : Modulus) (inv : ℕ) (fits : IsModulus M inv) where
  -- Twice the half is the number, or the number and the modulus.
  pub mod_haf_lem :
      (a : List ℕ)
      → Element M a
      → Element M (mod_haf M a)
        × (2 * value (mod_haf M a) ≡ value a + value a % 2 * value M.modulus)
  unfolding mod_haf
  mod_haf_lem a ha =
      let bit = parity a in
      elim (Bool-cases (bit_and (get_or a 0 0) 1 == 0)) [
        | inl e ↦
            let even : value a % 2 ≡ 0 = sym bit ∙ ==→eq (bit_and (get_or a 0 0) 1) 0 e in
            let none' : value a % 2 * value M.modulus ≡ 0 * value M.modulus =
              ap (λ k. k * value M.modulus) even in
            let h = half_four 0 a ha.words in
            rw e (
              record { words = h.0; reduced = omega (arith, h.1, ha.reduced) },
              omega (arith, h.1, none'),
            )
        | inr e ↦
            let bit_set : bit_and (get_or a 0 0) 1 ≢ 0 = ==→ne (bit_and (get_or a 0 0) 1) 0 e in
            let odd : value a % 2 ≡ 1 = omega (arith, bit) in
            let whole : value a % 2 * value M.modulus ≡ 1 * value M.modulus =
              ap (λ k. k * value M.modulus) odd in
            let s = z256_add_lem a M.modulus ha.words fits.modulus_words in
            let h = half_four (z256_add a M.modulus).1 (z256_add a M.modulus).0 s.0 in
            let twice : 2 * value (half_words (z256_add a M.modulus).1 (z256_add a M.modulus).0)
                ≡ value a + value M.modulus =
              omega (arith, h.1, s.1, s.2, fits.odd) in
            rw e (
              record { words = h.0; reduced = omega (arith, twice, ha.reduced) },
              omega (arith, twice, whole),
            )
      ]

  -- The negation of 0 is the modulus itself.
  pub mod_neg_lem :
      (a : List ℕ)
      → Element M a
      → IsWords 4 (mod_neg M a) × (value (mod_neg M a) + value a ≡ value M.modulus)
  unfolding mod_neg
  mod_neg_lem a ha =
      let d = z256_sub_lem M.modulus a fits.modulus_words ha.words in
      let low = value_lt (mod_neg M a) d.0 in (d.0, omega (arith, d.1, d.2, ha.reduced))
