-- ===== src/Endian/Laws.antt =====
-- Words and bytes are inverse to one another.
use gm_ssl.Base.{ℕ, zero, suc, ◌≤◌, ◌+◌, ◌-◌, ◌*◌, ◌^◌, ◌≡◌, refl, arith}
use gm_ssl.Base.{
  List, [], ◌∷◌, ◌++◌, get_or, take, length, All, u8, u32, IsByte, IsU32, ◌<<<◌, ◌>>>◌,
}
use gm_ssl.Base.Bits.{bit_or_fields, bit_or-lt}
use gm_ssl.Endian.{getu32, putu32, rol32}

-- Four bytes as a sum.
pub getu32_sum :
    (a b c d : ℕ) (rest : List ℕ)
    → IsByte a
    → IsByte b
    → IsByte c
    → IsByte d
    → getu32 (a ∷ b ∷ c ∷ d ∷ rest) ≡ a * 2 ^ 24 + b * 2 ^ 16 + c * 2 ^ 8 + d
unfolding getu32
getu32_sum a b c d rest ha hb hc hd =
    rw
      (
        bit_or_fields 24 a (b * 2 ^ 16) (omega arith),
        regroup_high,
        bit_or_fields 16 (a * 2 ^ 8 + b) (c * 2 ^ 8) (omega arith),
        regroup_low,
        bit_or_fields 8 (a * 2 ^ 16 + b * 2 ^ 8 + c) d (omega arith),
      )
      (omega arith)
  where
    regroup_high : a * 2 ^ 24 + b * 2 ^ 16 ≡ (a * 2 ^ 8 + b) * 2 ^ 16
    regroup_high = omega arith

    regroup_low : (a * 2 ^ 8 + b) * 2 ^ 16 + c * 2 ^ 8 ≡ (a * 2 ^ 16 + b * 2 ^ 8 + c) * 2 ^ 8
    regroup_low = omega arith

pub getu32-putu32 : (v : ℕ) (rest : List ℕ) → IsU32 v → getu32 (putu32 v ++ rest) ≡ v
unfolding putu32
getu32-putu32 v rest h = omega (
  arith,
  getu32_sum (u8 (v >>> 24)) (u8 (v >>> 16)) (u8 (v >>> 8)) (u8 v) rest (omega arith) (omega arith)
      (omega arith) (omega arith),
)

pub putu32-getu32 :
    (a b c d : ℕ) (rest : List ℕ)
    → IsByte a
    → IsByte b
    → IsByte c
    → IsByte d
    → putu32 (getu32 (a ∷ b ∷ c ∷ d ∷ rest)) ≡ a ∷ b ∷ c ∷ d ∷ []
unfolding putu32
putu32-getu32 a b c d rest ha hb hc hd = rw (getu32_sum a b c d rest ha hb hc hd) (ground arith)

pub getu32-IsU32 :
    (a b c d : ℕ) (rest : List ℕ)
    → IsByte a
    → IsByte b
    → IsByte c
    → IsByte d
    → IsU32 (getu32 (a ∷ b ∷ c ∷ d ∷ rest))
getu32-IsU32 a b c d rest ha hb hc hd = omega (arith, getu32_sum a b c d rest ha hb hc hd)

pub putu32-IsByte : (v : ℕ) → All IsByte (putu32 v)
unfolding putu32
putu32-IsByte v = omega arith

pub length-putu32 : (v : ℕ) → length (putu32 v) ≡ 4
unfolding putu32
length-putu32 v = refl

pub rol32-IsU32 : (a n : ℕ) → IsU32 (rol32 a n)
unfolding rol32
rol32-IsU32 a n = bit_or-lt 32 (u32 (a <<< n)) (u32 a >>> (32 - n)) (omega arith) (omega arith)

pub get_or-IsByte : (xs : List ℕ) (i : ℕ) → All IsByte xs → IsByte (get_or xs i 0)
get_or-IsByte [] i h = omega arith
get_or-IsByte (x ∷ xs) zero h = h.0
get_or-IsByte (x ∷ xs) (suc i) h = get_or-IsByte xs i h.1

-- Reading is in range, and writing what was read gives the four bytes back.
pub getu32_bytes : (p : List ℕ) → All IsByte p → IsU32 (getu32 p)
unfolding getu32
getu32_bytes p h =
    bit_or-lt 32 _ _
      (bit_or-lt 32 _ _
        (bit_or-lt 32 _ _ (omega (arith, get_or-IsByte p 0 h)) (omega (arith, get_or-IsByte p 1 h)))
        (omega (arith, get_or-IsByte p 2 h)))
      (omega (arith, get_or-IsByte p 3 h))

pub putu32-getu32_prefix : (p : List ℕ) → All IsByte p → 4 ≤ length p → putu32 (getu32 p) ≡ take 4 p
putu32-getu32_prefix [] h n = absurd (omega arith)
putu32-getu32_prefix (a ∷ []) h n = absurd (omega arith)
putu32-getu32_prefix (a ∷ b ∷ []) h n = absurd (omega arith)
putu32-getu32_prefix (a ∷ b ∷ c ∷ []) h n = absurd (omega arith)
putu32-getu32_prefix (a ∷ b ∷ c ∷ d ∷ rest) h n =
    putu32-getu32 a b c d rest h.0 h.1.0 h.1.1.0 h.1.1.1.0
