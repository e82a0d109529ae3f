-- ===== src/Asn1/Integer.antt =====
-- `asn1_integer_to_der_ex` and `asn1_integer_from_der_ex` of src/asn1.c: a number that is not
-- negative, as its big-endian bytes.
pub mod Laws
use gm_ssl.Base.{ℕ, zero, suc, ◌+◌, ◌-◌, bit_and, List, [], ◌∷◌, length, take, drop, get_or, u8}
use gm_ssl.Base.{Option, none, some, Bool, true, false, ◌&&◌, ◌||◌, ltb, ◌==◌, if◌then◌else◌}
use gm_ssl.Asn1.Sink.{Sink, emit, count, Written, failed, absent, written, Read, got}
use gm_ssl.Asn1.Length.{int_max, length_to_der, LengthRead, bad, short, size, length_from_der}
use gm_ssl.Asn1.Types.{ignoring}

-- `while (*a == 0 && alen > 1) { a++; alen--; }`
unfoldable pub strip : List ℕ → List ℕ
strip [] = []
strip (a ∷ []) = a ∷ []
strip (zero ∷ b ∷ bs) = strip (b ∷ bs)
strip (suc a ∷ b ∷ bs) = suc a ∷ b ∷ bs

-- `none` is a null pointer.
unfoldable pub integer_to_der_ex : ℕ → Option (List ℕ) → Sink → Written
integer_to_der_ex tag none s = absent
integer_to_der_ex tag (some a) s =
    let tagged = count 1 (emit (u8 tag ∷ []) s) in
    let m = strip a in
    let alen = length m in
    let padded = ignoring (length_to_der (alen + 1) tagged) tagged in
    let plain = ignoring (length_to_der alen tagged) tagged in
    if (length a == 0) || ltb int_max (length a)
    then failed
    else (if bit_and (get_or m 0 0) 0x80 == 0
        then written (count alen (emit m plain))
        else written (count (1 + alen) (emit m (emit (0 ∷ []) padded))))

-- The last check, and the result.
unfoldable pub unpadded : ℕ → List ℕ → Read (List ℕ)
unpadded len input =
    if (get_or input 0 0 == 0) && ltb 1 len then failed else got (take len input) (drop len input)

-- The checks behind the length.
unfoldable pub integer_checks : ℕ → List ℕ → Read (List ℕ)
integer_checks len input =
    if len == 0
    then failed
    else (if bit_and (get_or input 0 0) 0x80 == 0
        then (if (get_or input 0 0 == 0) && ltb 1 len
            then (if bit_and (get_or (drop 1 input) 0 0) 0x80 == 0
                then failed
                else unpadded (len - 1) (drop 1 input))
            else unpadded len input)
        else failed)

unfoldable pub integer_read : LengthRead → Read (List ℕ)
integer_read bad = failed
integer_read short = failed
integer_read (size len rest) = integer_checks len rest

unfoldable pub integer_from_der_ex : ℕ → List ℕ → Read (List ℕ)
integer_from_der_ex tag [] = absent
integer_from_der_ex tag (b ∷ rest) =
    if b == tag then integer_read (length_from_der rest) else absent
