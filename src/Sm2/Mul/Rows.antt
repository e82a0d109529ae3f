-- ===== src/Sm2/Mul/Rows.antt =====
-- What the loops of the product keep: the rows sum up to the product, and no step wraps.
use native.Mathlib.Nat.{add-mul, mul-add, mul-le-mul, mul_assoc, mul_left_comm}
use gm_ssl.Base.{ℕ, ◌+◌, ◌-◌, ◌*◌, ◌/◌, ◌%◌, ◌^◌, ◌≤◌, ◌<◌, arith, ◌≡◌, refl}
use gm_ssl.Base.{
  List, [], ◌∷◌, ◌++◌, u64, bit_and, length, All, IsU32, take, drop, All-append, All-drop,
  length-append, length-drop,
}
use gm_ssl.Base.Bits.{bit_and_mask}
use gm_ssl.Sm2.Mul.{mul_row, mul_rows}

-- The number that halves stand for.
unfoldable pub halves : List ℕ → ℕ
halves [] = 0
halves (w ∷ ws) = w + 2 ^ 32 * halves ws

-- The sum of a half, a product of halves and a carry fits a word.
mul_step :
    (s a b u : ℕ) → IsU32 s → IsU32 a → IsU32 b → IsU32 u → u64 (s + a * b + u) ≡ s + a * b + u
mul_step s a b u hs ha hb hu =
    let a_le : a ≤ 2 ^ 32 - 1 = omega arith in
    let b_le : b ≤ 2 ^ 32 - 1 = omega arith in
    let le : a * b ≤ (2 ^ 32 - 1) * (2 ^ 32 - 1) = mul-le-mul a_le b_le in omega arith

record Row (a : ℕ) (s bs : List ℕ) (u : ℕ) (r : List ℕ × ℕ) : Type 0 where
  pub total : halves (r.0 ++ (r.1 ∷ [])) ≡ halves s + a * halves bs + u
  pub carry : IsU32 r.1
  pub words : All IsU32 r.0
  pub size : length r.0 ≡ length s

mul_row_lem :
    (a : ℕ) (s bs : List ℕ) (u : ℕ)
    → IsU32 a
    → length s ≡ length bs
    → All IsU32 s
    → All IsU32 bs
    → IsU32 u
    → Row a s bs u (mul_row a s bs u)
unfolding mul_row halves
mul_row_lem a [] [] u ha e hs hb hu = record {
  total = ground arith;
  carry = hu;
  words = tt;
  size = refl;
}
mul_row_lem a [] (b ∷ bs) u ha e hs hb hu = absurd (omega arith)
mul_row_lem a (s ∷ ss) [] u ha e hs hb hu = absurd (omega arith)
mul_row_lem a (s ∷ ss) (b ∷ bs) u ha e hs hb hu =
    let t = u64 (s + a * b + u) in
    let whole = mul_step s a b u hs.0 ha hb.0 hu in
    let later : Row a ss bs (t / 2 ^ 32) (mul_row a ss bs (t / 2 ^ 32)) =
      mul_row_lem a ss bs (t / 2 ^ 32) ha (omega arith) hs.1 hb.1 (omega arith) in
    let low : bit_and t 0xffffffff ≡ t % 2 ^ 32 = bit_and_mask 32 t in
    record {
      total = omega (
        arith,
        later.total,
        low,
        whole,
        mul-add a b (2 ^ 32 * halves bs),
        mul_left_comm a (2 ^ 32) (halves bs),
      );
      carry = later.carry;
      words = (omega (arith, low), later.words);
      size = omega (arith, later.size);
    }

-- The halves of a product, as many as the factors have together.
pub record Rows (as' bs s r : List ℕ) : Type 0 where
  pub total : halves r ≡ halves s + halves as' * halves bs
  pub words : All IsU32 r
  pub size : length r ≡ length as' + length s

-- A round on top of the rounds that follow it.
take-Rows :
    (a u : ℕ) (as' bs s rs rest : List ℕ)
    → 0 < length s
    → Row a s bs 0 (rs, u)
    → Rows as' bs (drop 1 rs ++ (u ∷ [])) rest
    → Rows (a ∷ as') bs s (take 1 rs ++ rest)
unfolding halves
take-Rows a u as' bs s [] rest h row rows = absurd (omega (arith, row.size))
take-Rows a u as' bs s (r ∷ rs) rest h row rows = record {
  total = omega (
    arith,
    row.total,
    rows.total,
    add-mul a (2 ^ 32 * halves as') (halves bs),
    mul_assoc (2 ^ 32) (halves as') (halves bs),
  );
  words = (row.words.0, rows.words);
  size = omega (arith, row.size, rows.size, length-append rs (u ∷ []));
}

pub mul_rows_lem :
    (as' bs s : List ℕ)
    → 0 < length bs
    → length s ≡ length bs
    → All IsU32 as'
    → All IsU32 bs
    → All IsU32 s
    → Rows as' bs s (mul_rows as' bs s)
unfolding mul_rows halves
mul_rows_lem [] bs s pos e ha hb hs = record { total = omega arith; words = hs; size = omega arith }
mul_rows_lem (a ∷ as') bs s pos e ha hb hs =
    let r = mul_row a s bs 0 in
    let row : Row a s bs 0 r = mul_row_lem a s bs 0 ha.0 e hs hb (omega arith) in
    let window = drop 1 r.0 ++ (r.1 ∷ []) in
    let size : length window ≡ length bs =
      omega (arith, row.size, length-drop 1 r.0, length-append (drop 1 r.0) (r.1 ∷ [])) in
    let words : All IsU32 window =
      All-append IsU32 (drop 1 r.0) (r.1 ∷ []) (All-drop IsU32 1 r.0 row.words) (row.carry, tt) in
    let rows : Rows as' bs window (mul_rows as' bs window) =
      mul_rows_lem as' bs window pos size ha.1 hb words in
    take-Rows a r.1 as' bs s r.0 (mul_rows as' bs window) (omega arith) row rows
