-- ===== src/Sm2/Mul/Laws.antt =====
-- The product of two numbers of four words is the product of what they stand for.
use gm_ssl.Base.{ℕ, zero, suc, ◌+◌, ◌*◌, ◌%◌, ◌^◌, arith, ◌≡◌, refl, sym, ap, ap₂, ◌∙◌}
use gm_ssl.Base.{
  List, [], ◌∷◌, u64, bit_and, bit_or, length, All, IsU32, IsU64, ◌<<<◌, replicate, All-replicate,
}
use gm_ssl.Base.Bits.{bit_and_mask, bit_or_fields}
use gm_ssl.Sm2.Limbs.Laws.{value, IsWords}
use gm_ssl.Sm2.Mul.{split, pack, mul_rows, z256_mul}
use gm_ssl.Sm2.Mul.Rows.{halves, Rows, mul_rows_lem}

pub record Split (ws hs : List ℕ) : Type 0 where
  pub total : halves hs ≡ value ws
  pub words : All IsU32 hs
  pub size : length hs ≡ 2 * length ws

pub split_lem : (ws : List ℕ) → All IsU64 ws → Split ws (split ws)
unfolding split halves value
split_lem [] h = record { total = refl; words = tt; size = refl }
split_lem (w ∷ ws) h =
    let low : bit_and w 0xffffffff ≡ w % 2 ^ 32 = bit_and_mask 32 w in
    let later : Split ws (split ws) = split_lem ws h.1 in
    record {
      total = omega (arith, low, later.total);
      words = (omega (arith, low), (omega arith, later.words));
      size = omega (arith, later.size);
    }

pub record Packed (n : ℕ) (hs ws : List ℕ) : Type 0 where
  pub total : value ws ≡ halves hs
  pub words : IsWords n ws

pub pack_lem : (n : ℕ) (hs : List ℕ) → length hs ≡ 2 * n → All IsU32 hs → Packed n hs (pack hs)
unfolding pack halves value
pack_lem zero [] e h = record { total = refl; words = record { words = tt; size = refl } }
pack_lem zero (x ∷ hs) e h = absurd (omega arith)
pack_lem (suc n) [] e h = absurd (omega arith)
pack_lem (suc n) (x ∷ []) e h = absurd (omega arith)
pack_lem (suc n) (lo ∷ hi ∷ hs) e h =
    let join : bit_or (hi * 2 ^ 32) lo ≡ hi * 2 ^ 32 + lo = bit_or_fields 32 hi lo h.0 in
    let fits : u64 (hi <<< 32) ≡ hi * 2 ^ 32 = omega arith in
    let word : bit_or (u64 (hi <<< 32)) lo ≡ hi * 2 ^ 32 + lo = ap (λ w. bit_or w lo) fits ∙ join in
    let later : Packed n hs (pack hs) = pack_lem n hs (omega arith) h.1.1 in
    record {
      total = omega (arith, word, later.total);
      words = record {
        words = (omega (arith, word), later.words.words);
        size = omega (arith, later.words.size);
      };
    }

-- The halves of a number of four words are eight.
four-Split : (ws : List ℕ) → IsWords 4 ws → Split ws (split ws) × (length (split ws) ≡ 8)
four-Split ws h = let s = split_lem ws h.words in (s, omega (arith, s.size, h.size))

-- The product of two numbers of four words is eight words, and they stand for the product of the
-- numbers.
pub z256_mul_lem :
    (a b : List ℕ)
    → IsWords 4 a
    → IsWords 4 b
    → IsWords 8 (z256_mul a b) × (value (z256_mul a b) ≡ value a * value b)
unfolding z256_mul halves
z256_mul_lem a b ha hb =
    let as' = four-Split a ha in
    let bs = four-Split b hb in
    let s : List ℕ = replicate 8 0 in
    let zeros : All IsU32 s = All-replicate IsU32 8 0 (omega arith) in
    let rows : Rows (split a) (split b) s (mul_rows (split a) (split b) s) =
      mul_rows_lem (split a) (split b) s (omega (arith, bs.1)) (sym bs.1) as'.0.words bs.0.words
        zeros in
    let packed =
      pack_lem 8 (mul_rows (split a) (split b) s) (omega (arith, rows.size, as'.1)) rows.words in
    let products : halves (split a) * halves (split b) ≡ value a * value b =
      ap₂ (λ m n. m * n) as'.0.total bs.0.total in
    (packed.words, omega (arith, packed.total, rows.total, products))
