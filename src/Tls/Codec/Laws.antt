-- ===== src/Tls/Codec/Laws.antt =====
-- What the writers of integers and vectors write, the readers read back.
use gm_ssl.Base.{ℕ, ◌+◌, ◌*◌, ◌/◌, ◌^◌, ◌<◌, bit_or, arith, ◌≡◌, refl, ap, ap₂, ◌∙◌}
use gm_ssl.Base.{List, [], ◌∷◌, ◌++◌, length, length-append, take-append_eq, drop-append_eq}
use gm_ssl.Base.{le→ltb, some, u8, u16, u32, ◌<<<◌, ◌>>>◌, IsByte}
use gm_ssl.Base.Bits.{bit_or_fields}
use gm_ssl.Asn1.Sink.{Sink, wrote, wrote-wrote, count-emit}
use gm_ssl.Tls.Codec.{
  uint8_to_bytes, uint16_to_bytes, uint24_to_bytes, uint32_to_bytes, array_to_bytes,
}
use gm_ssl.Tls.Codec.{
  uint8array_to_bytes, uint16array_to_bytes, uint24array_to_bytes, uint8_from_bytes,
}
use gm_ssl.Tls.Codec.{
  uint16_from_bytes, uint24_from_bytes, uint32_from_bytes, array_from_bytes, sized_from_bytes,
}
use gm_ssl.Tls.Codec.{uint8array_from_bytes, uint16array_from_bytes, uint24array_from_bytes}

-- One more byte of a number that leaves room for it.
push : (a b : ℕ) → a < 2 ^ 24 → IsByte b → bit_or (u32 (a <<< 8)) b ≡ a * 2 ^ 8 + b
push a b ha hb = let e : u32 (a <<< 8) ≡ a * 2 ^ 8 = omega arith in rw e (bit_or_fields 8 a b hb)

uint16_read :
    (n : ℕ) (rest : List ℕ)
    → n < 2 ^ 16
    → uint16_from_bytes (u8 (n >>> 8) ∷ u8 n ∷ rest) ≡ some (n, rest)
unfolding uint16_from_bytes
uint16_read n rest h =
    let e : u16 (u8 (n >>> 8) <<< 8) ≡ n / 2 ^ 8 * 2 ^ 8 = omega arith in
    rw (e, bit_or_fields 8 (n / 2 ^ 8) (u8 n) (omega arith))
      (ap (λ m. some (m, rest)) (omega arith))

uint24_read :
    (n : ℕ) (rest : List ℕ)
    → n < 2 ^ 24
    → uint24_from_bytes (u8 (n >>> 16) ∷ u8 (n >>> 8) ∷ u8 n ∷ rest) ≡ some (n, rest)
unfolding uint24_from_bytes
uint24_read n rest h =
    rw
      (
        push (u8 (n >>> 16)) (u8 (n >>> 8)) (omega arith) (omega arith),
        push (u8 (n >>> 16) * 2 ^ 8 + u8 (n >>> 8)) (u8 n) (omega arith) (omega arith),
      )
      (ap (λ m. some (m, rest)) (omega arith))

-- For every number below 2 ^ 32: `tls_uint32_to_bytes` writes four bytes, with or without a buffer
-- counted, which `tls_uint32_from_bytes` reads, in front of any bytes, back as the number.
pub uint32_from_bytes-uint32_to_bytes :
    (n : ℕ) (rest : List ℕ) (s : Sink)
    → n < 2 ^ 32
    → (c : List ℕ) × (uint32_to_bytes n s ≡ wrote c s)
      × (length c ≡ 4)
      × (uint32_from_bytes (c ++ rest) ≡ some (n, rest))
unfolding uint32_to_bytes uint32_from_bytes
uint32_from_bytes-uint32_to_bytes n rest s h = (
  u8 (n >>> 24) ∷ u8 (n >>> 16) ∷ u8 (n >>> 8) ∷ u8 n ∷ [],
  count-emit s (u8 (n >>> 24) ∷ u8 (n >>> 16) ∷ u8 (n >>> 8) ∷ u8 n ∷ []) 4 refl,
  refl,
  rw
      (
        push (u8 (n >>> 24)) (u8 (n >>> 16)) (omega arith) (omega arith),
        push (u8 (n >>> 24) * 2 ^ 8 + u8 (n >>> 16)) (u8 (n >>> 8)) (omega arith) (omega arith),
        push ((u8 (n >>> 24) * 2 ^ 8 + u8 (n >>> 16)) * 2 ^ 8 + u8 (n >>> 8)) (u8 n) (omega arith)
            (omega arith),
      )
      (ap (λ m. some (m, rest)) (omega arith)),
)

array_read : (d rest : List ℕ) → array_from_bytes (length d) (d ++ rest) ≡ some (d, rest)
unfolding array_from_bytes
array_read d rest =
    rw (le→ltb (length (d ++ rest)) (length d) (omega (arith, length-append d rest))) (
      ap₂ (λ x y. some (x, y)) (take-append_eq (length d) d rest refl)
        (drop-append_eq (length d) d rest refl))

-- A vector behind the bytes of its length.
array_written : (head d : List ℕ) (s : Sink) → array_to_bytes d (wrote head s) ≡ wrote (head ++ d) s
unfolding array_to_bytes
array_written head d s = count-emit (wrote head s) d (length d) refl ∙ wrote-wrote s head d

-- For every vector of fewer than 2 ^ 8 bytes: `tls_uint8array_to_bytes` writes it, with or without a
-- buffer, so that `tls_uint8array_from_bytes` reads it back and leaves what follows.
pub uint8array_from_bytes-uint8array_to_bytes :
    (d rest : List ℕ) (s : Sink)
    → length d < 2 ^ 8
    → (c : List ℕ) × (uint8array_to_bytes d s ≡ wrote c s)
      × (uint8array_from_bytes (c ++ rest) ≡ some (d, rest))
unfolding uint8array_to_bytes uint8_to_bytes uint8array_from_bytes uint8_from_bytes sized_from_bytes
uint8array_from_bytes-uint8array_to_bytes d rest s h =
    let n = length d in
    let e : u8 n ≡ n = omega arith in
    let e' : u8 (u8 n) ≡ n = omega arith in
    (
      n ∷ d,
      rw e' (ap (array_to_bytes d) (count-emit s (n ∷ []) 1 refl) ∙ array_written (n ∷ []) d s),
      array_read d rest,
    )

-- For every vector of fewer than 2 ^ 16 bytes: `tls_uint16array_to_bytes` writes it, with or without
-- a buffer, so that `tls_uint16array_from_bytes` reads it back and leaves what follows.
pub uint16array_from_bytes-uint16array_to_bytes :
    (d rest : List ℕ) (s : Sink)
    → length d < 2 ^ 16
    → (c : List ℕ) × (uint16array_to_bytes d s ≡ wrote c s)
      × (uint16array_from_bytes (c ++ rest) ≡ some (d, rest))
unfolding uint16array_to_bytes uint16_to_bytes uint16array_from_bytes sized_from_bytes
uint16array_from_bytes-uint16array_to_bytes d rest s h =
    let n = length d in
    let head = u8 (n >>> 8) ∷ u8 n ∷ [] in
    let e : u16 n ≡ n = omega arith in
    (
      head ++ d,
      rw e (ap (array_to_bytes d) (count-emit s head 2 refl) ∙ array_written head d s),
      rw (uint16_read n (d ++ rest) h, sized_from_bytes) (array_read d rest),
    )

-- For every vector of fewer than 2 ^ 24 bytes: `tls_uint24array_to_bytes` writes it, with or without
-- a buffer, so that `tls_uint24array_from_bytes` reads it back and leaves what follows.
pub uint24array_from_bytes-uint24array_to_bytes :
    (d rest : List ℕ) (s : Sink)
    → length d < 2 ^ 24
    → (c : List ℕ) × (uint24array_to_bytes d s ≡ wrote c s)
      × (uint24array_from_bytes (c ++ rest) ≡ some (d, rest))
unfolding uint24array_to_bytes uint24_to_bytes uint24array_from_bytes sized_from_bytes
uint24array_from_bytes-uint24array_to_bytes d rest s h =
    let n = length d in
    let head = u8 (n >>> 16) ∷ u8 (n >>> 8) ∷ u8 n ∷ [] in
    let e : u32 n ≡ n = omega arith in
    (
      head ++ d,
      rw e (ap (array_to_bytes d) (count-emit s head 3 refl) ∙ array_written head d s),
      rw (uint24_read n (d ++ rest) h, sized_from_bytes) (array_read d rest),
    )
