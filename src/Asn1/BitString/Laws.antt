-- ===== src/Asn1/BitString/Laws.antt =====
-- A bit string that is not empty is read back.
use gm_ssl.Base.{
  ℕ, suc, ◌+◌, ◌-◌, ◌*◌, ◌/◌, ◌%◌, ◌^◌, ◌<◌, u8, u64, ◌<<<◌, arith, ◌≡◌, refl, sym, ap, ap₂, ◌∙◌,
}
use gm_ssl.Base.{List, [], ◌∷◌, ◌++◌, append_assoc, length, take_all, some, length-append}
use gm_ssl.Base.{take-append_eq, drop-append_eq, le→ltb, eq→==}
use gm_ssl.Asn1.Sink.{Sink, written, got, wrote, wrote-wrote, count-emit}
use gm_ssl.Asn1.Length.{int_max, enough, size}
use gm_ssl.Asn1.Length.Laws.{length_bytes}
use gm_ssl.Asn1.Length.Canonical.{length_from_der-length_bytes}
use gm_ssl.Asn1.Types.Laws.{tlv, headed_lem}
use gm_ssl.Asn1.BitString.{bit_string_to_der_ex, bit_string_read, bit_string_from_der_ex}
use gm_ssl.Asn1.BitString.{bit_octets_to_der_ex, whole_octets, bit_octets_from_der_ex}

-- How many bits of the last byte are not used.
abbrev pub unused : ℕ → ℕ
unused nbits = (nbits + 7) / 8 * 8 - nbits

bit_string_to_der_ex_lem :
    (tag nbits : ℕ) (bits : List ℕ) (s : Sink)
    → tag < 256
    → length bits ≡ (nbits + 7) / 8
    → length bits < int_max
    → bit_string_to_der_ex tag (some bits) nbits s
      ≡ written (wrote (tlv tag (unused nbits ∷ bits)) s)
unfolding bit_string_to_der_ex
bit_string_to_der_ex_lem tag nbits bits s ht e h =
    let one : (nbits + 7) / 8 + 1 ≡ suc (length bits) = omega arith in
    let small : u8 (unused nbits) ≡ unused nbits = omega arith in
    let tag' : u8 tag ≡ tag = omega arith in
    rw
      (
        one,
        headed_lem tag (suc (length bits)) s (omega arith),
        small,
        count-emit (wrote (u8 tag ∷ length_bytes (suc (length bits))) s) (unused nbits ∷ []) 1 refl,
        take_all ((nbits + 7) / 8) bits (omega arith),
        count-emit _ bits ((nbits + 7) / 8) (sym e),
      )
      (ap written (
        wrote-wrote (wrote (u8 tag ∷ length_bytes (suc (length bits))) s) (unused nbits ∷ []) bits
        ∙ wrote-wrote s (u8 tag ∷ length_bytes (suc (length bits))) (unused nbits ∷ bits)
        ∙ ap (λ t. wrote (t ∷ (length_bytes (suc (length bits)) ++ (unused nbits ∷ bits))) s) tag'))

bit_string_read_lem :
    (n : ℕ) (nbits : ℕ) (bits rest : List ℕ)
    → length bits ≡ n
    → 0 < n
    → n ≡ (nbits + 7) / 8
    → bit_string_read (size (suc n) (unused nbits ∷ (bits ++ rest))) ≡ got (bits, nbits) rest
unfolding bit_string_read
bit_string_read_lem n nbits bits rest e pos count =
    let less : suc n - 1 ≡ n = omega arith in
    rw (le→ltb (suc n) 2 (omega arith), le→ltb 7 (unused nbits) (omega arith), less)
      (ap₂ (λ (p : List ℕ × ℕ) r. got p r)
        (ap₂ (λ x y. (x, y)) (take-append_eq n bits rest e) (omega arith))
        (drop-append_eq n bits rest e))

-- For every tag of one byte and every bit string that is not empty, of fewer than INT_MAX bytes:
-- `asn1_bit_string_to_der_ex` succeeds, with or without a buffer, and `asn1_bit_string_from_der_ex`
-- reads what it writes, in front of any bytes, back as the same bytes and the same number of bits.
pub bit_string_from_der_ex-bit_string_to_der_ex :
    (tag nbits : ℕ) (bits rest : List ℕ) (s : Sink)
    → tag < 256
    → 0 < nbits
    → length bits ≡ (nbits + 7) / 8
    → length bits < int_max
    → (c : List ℕ) × (bit_string_to_der_ex tag (some bits) nbits s ≡ written (wrote c s))
      × (bit_string_from_der_ex tag (c ++ rest) ≡ got (bits, nbits) rest)
unfolding bit_string_from_der_ex enough
bit_string_from_der_ex-bit_string_to_der_ex tag nbits bits rest s ht pos e h = (
  tlv tag (unused nbits ∷ bits),
  bit_string_to_der_ex_lem tag nbits bits s ht e h,
  rw
      (
        eq→== tag tag refl,
        append_assoc (length_bytes (suc (length bits))) (unused nbits ∷ bits) rest,
        length_from_der-length_bytes (suc (length bits)) (unused nbits ∷ (bits ++ rest))
            (omega arith),
        le→ltb (suc (length (bits ++ rest))) (suc (length bits))
            (omega (arith, length-append bits rest)),
      )
      (bit_string_read_lem (length bits) nbits bits rest refl (omega arith) e),
)

-- The same for a string of whole octets, at least one of them, and the functions for these.
bit_octets_from_der_ex-bit_octets_to_der_ex :
    (tag : ℕ) (octs rest : List ℕ) (s : Sink)
    → tag < 256
    → 0 < length octs
    → length octs < int_max
    → (c : List ℕ) × (bit_octets_to_der_ex tag (some octs) (length octs) s ≡ written (wrote c s))
      × (bit_octets_from_der_ex tag (c ++ rest) ≡ got octs rest)
unfolding bit_octets_to_der_ex bit_octets_from_der_ex whole_octets
bit_octets_from_der_ex-bit_octets_to_der_ex tag octs rest s ht pos h =
    let (c, to, from) =
      bit_string_from_der_ex-bit_string_to_der_ex tag (length octs * 8) octs rest s ht (omega arith)
        (omega arith) h in
    let wide : u64 (length octs <<< 3) ≡ length octs * 8 = omega arith in
    (
      c,
      rw wide to,
      rw (from, whole_octets, eq→== (length octs * 8 % 8) 0 (omega arith))
          (ap (λ t. got t rest) (take_all (length octs * 8 / 2 ^ 3) octs (omega arith))),
    )
