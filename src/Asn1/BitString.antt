-- ===== src/Asn1/BitString.antt =====
-- The bit strings of src/asn1.c, whole octets among them.
pub mod Laws
use gm_ssl.Base.{
  ℕ, ◌+◌, ◌-◌, ◌*◌, ◌/◌, ◌%◌, u8, u64, ◌<<<◌, ◌>>>◌, List, [], ◌∷◌, length, take, drop,
}
use gm_ssl.Base.{get_or, Option, none, some, Bool, true, false, ltb, ◌==◌, if◌then◌else◌}
use gm_ssl.Asn1.Sink.{Sink, emit, count, Written, failed, absent, written, Read, got}
use gm_ssl.Asn1.Length.{length_to_der, LengthRead, bad, short, size, length_from_der}
use gm_ssl.Asn1.Types.{ignoring}

-- `none` is a null pointer.
unfoldable pub bit_string_to_der_ex : ℕ → Option (List ℕ) → ℕ → Sink → Written
bit_string_to_der_ex tag none nbits s = if nbits == 0 then absent else failed
bit_string_to_der_ex tag (some bits) nbits s =
    let nbytes = (nbits + 7) / 8 in
    let unused_nbits = nbytes * 8 - nbits in
    let tagged = count 1 (emit (u8 tag ∷ []) s) in
    let headed = ignoring (length_to_der (nbytes + 1) tagged) tagged in
    let marked = count 1 (emit (u8 unused_nbits ∷ []) headed) in
    written (count nbytes (emit (take nbytes bits) marked))

-- Behind the tag: the bytes of the string, and how many bits they have.
unfoldable pub bit_string_read : LengthRead → Read (List ℕ × ℕ)
bit_string_read bad = failed
bit_string_read short = failed
bit_string_read (size len input) =
    let unused_bits = get_or input 0 0 in
    let rest = drop 1 input in
    let read : Read (List ℕ × ℕ) =
      got (take (len - 1) rest, ((len - 1) <<< 3) - unused_bits) (drop (len - 1) rest) in
    if ltb len 2 then failed else (if ltb 7 unused_bits then failed else read)

unfoldable pub bit_string_from_der_ex : ℕ → List ℕ → Read (List ℕ × ℕ)
bit_string_from_der_ex tag [] = absent
bit_string_from_der_ex tag (b ∷ rest) =
    if b == tag then bit_string_read (length_from_der rest) else absent

-- The count of octets is shifted in 64 bits.
unfoldable pub bit_octets_to_der_ex : ℕ → Option (List ℕ) → ℕ → Sink → Written
bit_octets_to_der_ex tag octs nocts s = bit_string_to_der_ex tag octs (u64 (nocts <<< 3)) s

unfoldable pub whole_octets : Read (List ℕ × ℕ) → Read (List ℕ)
whole_octets failed = failed
whole_octets absent = absent
whole_octets (got (bits, nbits) rest) =
    if nbits % 8 == 0 then got (take (nbits >>> 3) bits) rest else failed

unfoldable pub bit_octets_from_der_ex : ℕ → List ℕ → Read (List ℕ)
bit_octets_from_der_ex tag input = whole_octets (bit_string_from_der_ex tag input)
