-- ===== src/Sm2/Mul.antt =====
-- `sm2_z256_mul` of src/sm2_z256.c: the product of two numbers of four words by their halves.
pub mod Rows
pub mod Laws
use gm_ssl.Base.{
  ℕ, zero, suc, ◌+◌, ◌*◌, ◌/◌, ◌%◌, ◌^◌, List, [], ◌∷◌, ◌++◌, bit_and, bit_or, u64, ◌<<<◌, ◌>>>◌,
}
use gm_ssl.Base.{take, drop, replicate}

-- The halves of the words, the low one of each first: `a_` and `b_`.
unfoldable pub split : List ℕ → List ℕ
split [] = []
split (w ∷ ws) = bit_and w 0xffffffff ∷ (w >>> 32) ∷ split ws

-- The inner loop, over `s[i + j]` and `b_[j]`: the new halves, and the `u` that is left.
unfoldable pub mul_row : ℕ → List ℕ → List ℕ → ℕ → List ℕ × ℕ
mul_row a [] bs u = ([], u)
mul_row a (s ∷ ss) [] u = ([], u)
mul_row a (s ∷ ss) (b ∷ bs) u =
    let t = u64 (s + a * b + u) in
    let (rs, u') = mul_row a ss bs (t >>> 32) in (bit_and t 0xffffffff ∷ rs, u')

-- The outer loop from the halves `s[i]` on: each round leaves `s[i]` as it is from then on, and sets
-- the half after the last that it has read.
unfoldable pub mul_rows : List ℕ → List ℕ → List ℕ → List ℕ
mul_rows [] bs s = s
mul_rows (a ∷ as') bs s =
    let (rs, u) = mul_row a s bs 0 in take 1 rs ++ mul_rows as' bs (drop 1 rs ++ (u ∷ []))

-- The last loop: two halves are a word.
unfoldable pub pack : List ℕ → List ℕ
pack [] = []
pack (lo ∷ []) = []
pack (lo ∷ hi ∷ s) = bit_or (u64 (hi <<< 32)) lo ∷ pack s

unfoldable pub z256_mul : List ℕ → List ℕ → List ℕ
z256_mul a b = pack (mul_rows (split a) (split b) (replicate 8 0))
