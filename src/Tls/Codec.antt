-- ===== src/Tls/Codec.antt =====
-- `tls_uint8_to_bytes` to `tls_uint24array_from_bytes` of src/tls.c: big-endian integers, and vectors
-- behind their lengths.
pub mod Laws
use gm_ssl.Base.{
  ℕ, ◌*◌, ◌/◌, ◌%◌, ◌^◌, bit_or, List, [], ◌∷◌, length, take, drop, Bool, true, false,
}
use gm_ssl.Base.{ltb, if◌then◌else◌, Option, none, some, u8, u16, u32, ◌<<<◌, ◌>>>◌}
use gm_ssl.Asn1.Sink.{Sink, emit, count}

unfoldable pub uint8_to_bytes : ℕ → Sink → Sink
uint8_to_bytes a s = count 1 (emit (u8 a ∷ []) s)

unfoldable pub uint16_to_bytes : ℕ → Sink → Sink
uint16_to_bytes a s = count 2 (emit (u8 (a >>> 8) ∷ u8 a ∷ []) s)

unfoldable pub uint24_to_bytes : ℕ → Sink → Sink
uint24_to_bytes a s = count 3 (emit (u8 (a >>> 16) ∷ u8 (a >>> 8) ∷ u8 a ∷ []) s)

unfoldable pub uint32_to_bytes : ℕ → Sink → Sink
uint32_to_bytes a s = count 4 (emit (u8 (a >>> 24) ∷ u8 (a >>> 16) ∷ u8 (a >>> 8) ∷ u8 a ∷ []) s)

-- The case of data that is there; a null pointer only leaves room for it.
unfoldable pub array_to_bytes : List ℕ → Sink → Sink
array_to_bytes d s = count (length d) (emit d s)

-- The length is cut to its type's width.
unfoldable pub uint8array_to_bytes : List ℕ → Sink → Sink
uint8array_to_bytes d s = array_to_bytes d (uint8_to_bytes (u8 (length d)) s)

unfoldable pub uint16array_to_bytes : List ℕ → Sink → Sink
uint16array_to_bytes d s = array_to_bytes d (uint16_to_bytes (u16 (length d)) s)

unfoldable pub uint24array_to_bytes : List ℕ → Sink → Sink
uint24array_to_bytes d s = array_to_bytes d (uint24_to_bytes (u32 (length d)) s)

-- A reader returns the value and the input behind it; `none` is -1.
unfoldable pub uint8_from_bytes : List ℕ → Option (ℕ × List ℕ)
uint8_from_bytes [] = none
uint8_from_bytes (a ∷ rest) = some (a, rest)

unfoldable pub uint16_from_bytes : List ℕ → Option (ℕ × List ℕ)
uint16_from_bytes [] = none
uint16_from_bytes (a ∷ []) = none
uint16_from_bytes (a ∷ b ∷ rest) = some (bit_or (u16 (a <<< 8)) b, rest)

unfoldable pub uint24_from_bytes : List ℕ → Option (ℕ × List ℕ)
uint24_from_bytes [] = none
uint24_from_bytes (a ∷ []) = none
uint24_from_bytes (a ∷ b ∷ []) = none
uint24_from_bytes (a ∷ b ∷ c ∷ rest) = some (bit_or (u32 (bit_or (u32 (a <<< 8)) b <<< 8)) c, rest)

unfoldable pub uint32_from_bytes : List ℕ → Option (ℕ × List ℕ)
uint32_from_bytes [] = none
uint32_from_bytes (a ∷ []) = none
uint32_from_bytes (a ∷ b ∷ []) = none
uint32_from_bytes (a ∷ b ∷ c ∷ []) = none
uint32_from_bytes (a ∷ b ∷ c ∷ d ∷ rest) =
    some (bit_or (u32 (bit_or (u32 (bit_or (u32 (a <<< 8)) b <<< 8)) c <<< 8)) d, rest)

unfoldable pub array_from_bytes : ℕ → List ℕ → Option (List ℕ × List ℕ)
array_from_bytes datalen input =
    if ltb (length input) datalen then none else some (take datalen input, drop datalen input)

-- A length and then as many bytes.
unfoldable pub sized_from_bytes : Option (ℕ × List ℕ) → Option (List ℕ × List ℕ)
sized_from_bytes none = none
sized_from_bytes (some (len, rest)) = array_from_bytes len rest

unfoldable pub uint8array_from_bytes : List ℕ → Option (List ℕ × List ℕ)
uint8array_from_bytes input = sized_from_bytes (uint8_from_bytes input)

unfoldable pub uint16array_from_bytes : List ℕ → Option (List ℕ × List ℕ)
uint16array_from_bytes input = sized_from_bytes (uint16_from_bytes input)

unfoldable pub uint24array_from_bytes : List ℕ → Option (List ℕ × List ℕ)
uint24array_from_bytes input = sized_from_bytes (uint24_from_bytes input)
