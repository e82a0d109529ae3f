-- ===== src/Endian/Long.antt =====
-- Words of 64 bits and their bytes are inverse to one another.
use gm_ssl.Base.{ℕ, ◌+◌, ◌*◌, ◌^◌, ◌≡◌, refl, arith}
use gm_ssl.Base.{List, [], ◌∷◌, ◌++◌, length, All, u8, IsByte, IsU64, ◌>>>◌}
use gm_ssl.Base.Bits.{bit_or_fields}
use gm_ssl.Endian.{getu64, putu64}

-- Eight bytes as a sum.
pub getu64_sum :
    (a b c d e f g h : ℕ) (rest : List ℕ)
    → All IsByte (a ∷ b ∷ c ∷ d ∷ e ∷ f ∷ g ∷ h ∷ [])
    → getu64 (a ∷ b ∷ c ∷ d ∷ e ∷ f ∷ g ∷ h ∷ rest)
      ≡ a * 2 ^ 56 + b * 2 ^ 48 + c * 2 ^ 40 + d * 2 ^ 32 + e * 2 ^ 24 + f * 2 ^ 16 + g * 2 ^ 8 + h
unfolding getu64
getu64_sum a b c d e f g h rest hs =
    let s1 : a * 2 ^ 56 + b * 2 ^ 48 ≡ (a * 2 ^ 8 + b) * 2 ^ 48 = omega arith in
    let s2 : (a * 2 ^ 8 + b) * 2 ^ 48 + c * 2 ^ 40 ≡ (a * 2 ^ 16 + b * 2 ^ 8 + c) * 2 ^ 40 =
      omega arith in
    let s3 : (a * 2 ^ 16 + b * 2 ^ 8 + c) * 2 ^ 40 + d * 2 ^ 32
        ≡ (a * 2 ^ 24 + b * 2 ^ 16 + c * 2 ^ 8 + d) * 2 ^ 32 =
      omega arith in
    let s4 : (a * 2 ^ 24 + b * 2 ^ 16 + c * 2 ^ 8 + d) * 2 ^ 32 + e * 2 ^ 24
        ≡ (a * 2 ^ 32 + b * 2 ^ 24 + c * 2 ^ 16 + d * 2 ^ 8 + e) * 2 ^ 24 =
      omega arith in
    let s5 : (a * 2 ^ 32 + b * 2 ^ 24 + c * 2 ^ 16 + d * 2 ^ 8 + e) * 2 ^ 24 + f * 2 ^ 16
        ≡ (a * 2 ^ 40 + b * 2 ^ 32 + c * 2 ^ 24 + d * 2 ^ 16 + e * 2 ^ 8 + f) * 2 ^ 16 =
      omega arith in
    let s6 : (a * 2 ^ 40 + b * 2 ^ 32 + c * 2 ^ 24 + d * 2 ^ 16 + e * 2 ^ 8 + f) * 2 ^ 16
          + g * 2 ^ 8
        ≡ (a * 2 ^ 48 + b * 2 ^ 40 + c * 2 ^ 32 + d * 2 ^ 24 + e * 2 ^ 16 + f * 2 ^ 8 + g) * 2 ^ 8 =
      omega arith in
    rw
      (
        bit_or_fields 56 a (b * 2 ^ 48) (omega arith),
        s1,
        bit_or_fields 48 (a * 2 ^ 8 + b) (c * 2 ^ 40) (omega arith),
        s2,
        bit_or_fields 40 (a * 2 ^ 16 + b * 2 ^ 8 + c) (d * 2 ^ 32) (omega arith),
        s3,
        bit_or_fields 32 (a * 2 ^ 24 + b * 2 ^ 16 + c * 2 ^ 8 + d) (e * 2 ^ 24) (omega arith),
        s4,
        bit_or_fields 24 (a * 2 ^ 32 + b * 2 ^ 24 + c * 2 ^ 16 + d * 2 ^ 8 + e) (f * 2 ^ 16)
            (omega arith),
        s5,
        bit_or_fields 16 (a * 2 ^ 40 + b * 2 ^ 32 + c * 2 ^ 24 + d * 2 ^ 16 + e * 2 ^ 8 + f)
            (g * 2 ^ 8) (omega arith),
        s6,
        bit_or_fields 8
            (a * 2 ^ 48 + b * 2 ^ 40 + c * 2 ^ 32 + d * 2 ^ 24 + e * 2 ^ 16 + f * 2 ^ 8 + g) (h)
            (omega arith),
      )
      (omega arith)

pub getu64-putu64 : (v : ℕ) (rest : List ℕ) → IsU64 v → getu64 (putu64 v ++ rest) ≡ v
unfolding putu64
getu64-putu64 v rest h = omega (
  arith,
  getu64_sum (u8 (v >>> 56)) (u8 (v >>> 48)) (u8 (v >>> 40)) (u8 (v >>> 32)) (u8 (v >>> 24))
      (u8 (v >>> 16)) (u8 (v >>> 8)) (u8 v) rest (omega arith),
)

pub putu64-IsByte : (v : ℕ) → All IsByte (putu64 v)
unfolding putu64
putu64-IsByte v = omega arith

pub length-putu64 : (v : ℕ) → length (putu64 v) ≡ 8
unfolding putu64
length-putu64 v = refl
