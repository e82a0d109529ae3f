-- ===== src/Asn1/Length.antt =====
-- `asn1_length_to_der` and `asn1_length_from_der`.
pub mod Laws
pub mod Canonical
pub mod Unique
use gm_ssl.Base.{ℕ, ◌+◌, ◌-◌, ◌*◌, ◌/◌, ◌%◌, ◌^◌, bit_and, List, [], ◌∷◌, ◌++◌, get_or, take, drop}
use gm_ssl.Base.{length, replicate, Bool, true, false, ◌&&◌, ◌||◌, ltb, ◌==◌, if◌then◌else◌, u8}
use gm_ssl.Endian.{getu32, putu32}
use gm_ssl.Mem.{write}
use gm_ssl.Asn1.Sink.{Sink, emit, count, Written, failed, absent, written}

abbrev pub int_max : ℕ
int_max = 2 ^ 31 - 1

-- How many bytes follow the first one in the long form.
unfoldable pub nbytes_of : ℕ → ℕ
nbytes_of len =
    if ltb len 256 then 1 else (if ltb len 65536 then 2 else (if ltb len (2 ^ 24) then 3 else 4))

unfoldable pub length_to_der : ℕ → Sink → Written
length_to_der len s =
    let nbytes = nbytes_of len in
    let long =
      count (1 + nbytes) (emit (drop (4 - nbytes) (putu32 len)) (emit ((0x80 + nbytes) ∷ []) s)) in
    if ltb int_max len
    then failed
    else (if ltb len 128 then written (count 1 (emit (u8 len ∷ []) s)) else written long)

-- The result -1, the result -2 where fewer bytes are left than the length says, and the length
-- with the bytes behind it.
pub data LengthRead : Type 0 where
  bad short : LengthRead
  size : ℕ → List ℕ → LengthRead

-- The last check.
unfoldable pub enough : ℕ → List ℕ → LengthRead
enough len rest = if ltb (length rest) len then short else size len rest

unfoldable pub length_from_der : List ℕ → LengthRead
length_from_der [] = bad
length_from_der (b ∷ rest) =
    let nbytes = bit_and b 0x7f in
    let first = get_or rest 0 0 in
    let buf = write (replicate 4 0) (4 - nbytes) (take nbytes rest) in
    if ltb b 128
    then enough b rest
    else (if ltb nbytes 1 || ltb 4 nbytes
        then bad
        else (if ltb (length rest) nbytes
            then bad
            else (if (nbytes == 1) && ltb first 0x80
                then bad
                else (if ltb 1 nbytes && (first == 0)
                    then bad
                    else enough (getu32 buf) (drop nbytes rest)))))
