-- ===== src/Endian.antt =====
-- include/gmssl/endian.h: words in big-endian bytes, and the rotation.
pub mod Laws
pub mod Long
use gm_ssl.Base.{ℕ, ◌-◌, ◌*◌, ◌/◌, ◌%◌, ◌^◌, bit_or, List, [], ◌∷◌, get_or, u8, u32, ◌<<<◌, ◌>>>◌}

-- GETU32(p). Every caller passes at least four bytes.
unfoldable pub getu32 : List ℕ → ℕ
getu32 p =
    bit_or (bit_or (bit_or (get_or p 0 0 <<< 24) (get_or p 1 0 <<< 16)) (get_or p 2 0 <<< 8))
      (get_or p 3 0)

-- PUTU32(p, V): the four bytes that it writes.
unfoldable pub putu32 : ℕ → List ℕ
putu32 v = u8 (v >>> 24) ∷ u8 (v >>> 16) ∷ u8 (v >>> 8) ∷ u8 v ∷ []

-- GETU64(p). Every caller passes at least eight bytes.
unfoldable pub getu64 : List ℕ → ℕ
getu64 p =
    let ab = bit_or (get_or p 0 0 <<< 56) (get_or p 1 0 <<< 48) in
    let cd = bit_or (bit_or ab (get_or p 2 0 <<< 40)) (get_or p 3 0 <<< 32) in
    let ef = bit_or (bit_or cd (get_or p 4 0 <<< 24)) (get_or p 5 0 <<< 16) in
    bit_or (bit_or ef (get_or p 6 0 <<< 8)) (get_or p 7 0)

-- PUTU64(p, V): the eight bytes that it writes.
unfoldable pub putu64 : ℕ → List ℕ
putu64 v =
    u8 (v >>> 56)
    ∷ u8 (v >>> 48)
    ∷ u8 (v >>> 40)
    ∷ u8 (v >>> 32)
    ∷ u8 (v >>> 24)
    ∷ u8 (v >>> 16)
    ∷ u8 (v >>> 8)
    ∷ u8 v
    ∷ []

-- ROL32(a, n) on a `uint32_t`.
unfoldable pub rol32 : ℕ → ℕ → ℕ
rol32 a n = bit_or (u32 (a <<< n)) (u32 a >>> (32 - n))
