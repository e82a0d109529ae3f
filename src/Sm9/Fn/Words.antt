-- ===== src/Sm9/Fn/Words.antt =====
-- The words of the reduction: the product of five words, and the difference below 2 ^ 320.
use gm_ssl.Base.{ℕ, zero, suc, ◌+◌, ◌*◌, ◌%◌, ◌^◌, ◌<◌, arith, ◌≡◌, refl, sym, ap, ap₂, ◌∙◌}
use gm_ssl.Base.{List, [], ◌∷◌, length, take, drop, get_or, replicate, All, IsU32, IsU64}
use gm_ssl.Base.{All-replicate, All-take, All-drop, length-take, length-drop, take-append-drop}
use gm_ssl.Sm2.Limbs.{z256_sub}
use gm_ssl.Sm2.Limbs.Laws.{value, IsWords}
use gm_ssl.Sm2.Limbs.Words.{value-append, value_lt, z256_sub_lem}
use gm_ssl.Sm2.Mul.{split, mul_rows}
use gm_ssl.Sm2.Mul.Laws.{split_lem, pack_lem}
use gm_ssl.Sm2.Mul.Rows.{halves, Rows, mul_rows_lem}
use gm_ssl.Sm9.Fn.{z320_mul, z320_sub}

pub z320_mul_lem :
    (a b : List ℕ)
    → IsWords 5 a
    → IsWords 5 b
    → IsWords 10 (z320_mul a b) × (value (z320_mul a b) ≡ value a * value b)
unfolding z320_mul halves
z320_mul_lem a b ha hb =
    let as' = split_lem a ha.words in
    let bs = split_lem b hb.words in
    let s : List ℕ = replicate 10 0 in
    let zeros : All IsU32 s = All-replicate IsU32 10 0 (omega arith) in
    let ten : length (split b) ≡ 10 = omega (arith, bs.size, hb.size) in
    let rows : Rows (split a) (split b) s (mul_rows (split a) (split b) s) =
      mul_rows_lem (split a) (split b) s (omega arith) (sym ten) as'.words bs.words zeros in
    let packed =
      pack_lem 10 (mul_rows (split a) (split b) s) (omega (arith, rows.size, as'.size, ha.size))
        rows.words in
    let products : halves (split a) * halves (split b) ≡ value a * value b =
      ap₂ (λ m n. m * n) as'.total bs.total in
    (packed.words, omega (arith, packed.total, rows.total, products))

-- Words in two parts.
pub record Parts (k n : ℕ) (ws : List ℕ) : Type 0 where
  pub total : value ws ≡ value (take k ws) + (2 ^ 64) ^ k * value (drop k ws)
  pub low : IsWords k (take k ws)
  pub high : IsWords n (drop k ws)

pub parts : (k n m : ℕ) (ws : List ℕ) → IsWords m ws → m ≡ k + n → Parts k n ws
parts k n m ws h e =
    let low : length (take k ws) ≡ k = omega (arith, length-take k ws, h.size) in
    record {
      total = ap value (sym (take-append-drop k ws)) ∙ value-append k (take k ws) (drop k ws) low;
      low = record { words = All-take IsU64 k ws h.words; size = low };
      high = record {
        words = All-drop IsU64 k ws h.words;
        size = omega (arith, length-drop k ws, h.size);
      };
    }

-- The first of the words behind others.
pub word-drop :
    (k n : ℕ) (ws : List ℕ)
    → IsWords (k + suc n) ws
    → (value (drop k ws) ≡ get_or ws k 0 + 2 ^ 64 * value (drop (suc k) ws)) × IsU64 (get_or ws k 0)
unfolding value
word-drop zero n [] h = absurd (omega (arith, h.size))
word-drop zero n (w ∷ ws) h = (refl, h.words.0)
word-drop (suc k) n [] h = absurd (omega (arith, h.size))
word-drop (suc k) n (w ∷ ws) h =
    word-drop k n ws (record { words = h.words.1; size = omega (arith, h.size) })

-- The difference, where it is below 2 ^ 320 and both are given by their low four words and the fifth.
pub z320_sub_lem :
    (z s : List ℕ) (s4 m : ℕ)
    → IsWords 4 (take 4 z)
    → IsWords 4 (take 4 s)
    → IsU64 (get_or z 4 0)
    → IsU64 s4
    → m < 2 ^ 320
    → (value (take 4 s) + 2 ^ 256 * s4 + m) % 2 ^ 320
      ≡ (value (take 4 z) + 2 ^ 256 * get_or z 4 0) % 2 ^ 320
    → IsWords 4 (z320_sub z s s4).0
      × (value (z320_sub z s s4).0 + 2 ^ 256 * (z320_sub z s s4).1 ≡ m)
unfolding z320_sub
z320_sub_lem z s s4 m hz hs h4 k4 hm e =
    let (words, borrow, total) = z256_sub_lem (take 4 z) (take 4 s) hz hs in
    (
      words,
      omega (
        arith,
        borrow,
        total,
        value_lt (z256_sub (take 4 z) (take 4 s)).0 words,
        value_lt (take 4 z) hz,
        value_lt (take 4 s) hs,
        e,
      ),
    )
