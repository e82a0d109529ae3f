-- ===== src/Sm2/Limbs.antt =====
-- `sm2_z256_add`, `sm2_z256_sub`, `sm2_z512_add` and `sm2_z256_cmp` of src/sm2_z256.c. A number is a
-- list of 64-bit words, the low one first. The source writes the rounds out, four or eight of them
-- alike; in the first the carry is 0.
pub mod Laws
pub mod Words
pub mod Zero
use Prim.Native.Nat.{compare, Ordering}
use gm_ssl.Base.{ℕ, zero, suc, ◌+◌, ◌-◌, ◌*◌, ◌%◌, ◌^◌, List, [], ◌∷◌, Bool, true, false, ltb}
use gm_ssl.Base.{if◌then◌else◌, u64, length, All, IsU64, ◌≡◌, bit_or, bit_and, ◌>>>◌, ◌/◌}

-- A comparison as a C number.
abbrev pub bit : Bool → ℕ
bit b = if b then 1 else 0

-- One round of the addition from the carry `c`: the word and the carry.
unfoldable pub add_word : ℕ → ℕ → ℕ → ℕ × ℕ
add_word c a b =
    let t = u64 (a + c) in let r = u64 (t + b) in (r, u64 (bit (ltb t a) + bit (ltb r t)))

-- The words of the sum, and the carry that is returned.
unfoldable pub add_limbs : ℕ → List ℕ → List ℕ → List ℕ × ℕ
add_limbs c [] bs = ([], c)
add_limbs c (a ∷ as') [] = ([], c)
add_limbs c (a ∷ as') (b ∷ bs) =
    let (r, c') = add_word c a b in let (rs, c'') = add_limbs c' as' bs in (r ∷ rs, c'')

-- One round of the subtraction from the borrow `c`.
unfoldable pub sub_word : ℕ → ℕ → ℕ → ℕ × ℕ
sub_word c a b =
    let t = u64 (a + 2 ^ 64 - c) in
    let r = u64 (t + 2 ^ 64 - b) in (r, u64 (bit (ltb a t) + bit (ltb t r)))

unfoldable pub sub_limbs : ℕ → List ℕ → List ℕ → List ℕ × ℕ
sub_limbs c [] bs = ([], c)
sub_limbs c (a ∷ as') [] = ([], c)
sub_limbs c (a ∷ as') (b ∷ bs) =
    let (r, c') = sub_word c a b in let (rs, c'') = sub_limbs c' as' bs in (r ∷ rs, c'')

-- The results 1, -1 and 0 of the comparison, which looks at the high words first.
unfoldable pub cmp_limbs : List ℕ → List ℕ → Ordering
cmp_limbs [] bs = Ordering.eq
cmp_limbs (a ∷ as') [] = Ordering.eq
cmp_limbs (a ∷ as') (b ∷ bs) = elim (cmp_limbs as' bs) [
  | Ordering.lt ↦ Ordering.lt
  | Ordering.gt ↦ Ordering.gt
  | Ordering.eq ↦ compare a b
]

unfoldable pub z256_add : List ℕ → List ℕ → List ℕ × ℕ
z256_add a b = add_limbs 0 a b

unfoldable pub z256_sub : List ℕ → List ℕ → List ℕ × ℕ
z256_sub a b = sub_limbs 0 a b

unfoldable pub z512_add : List ℕ → List ℕ → List ℕ × ℕ
z512_add a b = add_limbs 0 a b

unfoldable pub z256_cmp : List ℕ → List ℕ → Ordering
z256_cmp a b = cmp_limbs a b

-- Whether a word is 0, without a branch: `in |= 0 - in`, and the top bit of its complement.
unfoldable pub is_zero : ℕ → ℕ
is_zero w = (2 ^ 64 - 1 - bit_or w (u64 (2 ^ 64 - w))) >>> 63

unfoldable pub z256_is_zero : List ℕ → ℕ
z256_is_zero [] = 1
z256_is_zero (w ∷ []) = is_zero w
z256_is_zero (w ∷ v ∷ ws) = bit_and (is_zero w) (z256_is_zero (v ∷ ws))
