-- ===== src/Asn1/Small.antt =====
-- The booleans, the null value and the values of type `int` of src/asn1.c.
pub mod Bytes
pub mod Laws
use gm_ssl.Base.{ℕ, zero, suc, ◌+◌, ◌-◌, ◌^◌, bit_and, bit_or, u8, u32, ◌<<<◌, ◌>>>◌}
use gm_ssl.Base.{List, [], ◌∷◌, length, take, drop, replicate, get_or, some}
use gm_ssl.Base.{Bool, true, false, ◌&&◌, ◌||◌, ltb, ◌==◌, if◌then◌else◌}
use gm_ssl.Mem.{write}
use gm_ssl.Asn1.Sink.{Sink, emit, count, Written, failed, absent, written, Read, got}
use gm_ssl.Asn1.Integer.{integer_to_der_ex, integer_from_der_ex}

-- A C `int`: `negsuc n` is -1 - n.
pub data ℤ : Type 0 where
  pos negsuc : ℕ → ℤ

unfoldable pub boolean_to_der_ex : ℕ → ℤ → Sink → Written
boolean_to_der_ex tag (negsuc n) s = absent
boolean_to_der_ex tag (pos val) s =
    let value = if val == 0 then 0x00 else 0xff in
    written (count 3 (emit (u8 tag ∷ 0x01 ∷ value ∷ []) s))

unfoldable pub boolean_from_der_ex : ℕ → List ℕ → Read ℕ
boolean_from_der_ex tag [] = absent
boolean_from_der_ex tag (b ∷ rest) =
    let value = get_or rest 1 0 in
    let read : Read ℕ = got (if value == 0xff then 1 else 0) (drop 2 rest) in
    if b == tag
    then (if ltb (length rest) 2
        then failed
        else (if get_or rest 0 0 == 0x01
            then (if (value == 0xff) || (value == 0x00) then read else failed)
            else failed))
    else absent

unfoldable pub null_to_der : Sink → Written
null_to_der s = written (count 2 (emit (0x05 ∷ 0x00 ∷ []) s))

-- The rest behind the two bytes is all that comes back.
unfoldable pub null_from_der : List ℕ → Read (Unit {0})
null_from_der [] = absent
null_from_der (b ∷ []) = if b == 0x05 then failed else absent
null_from_der (b ∷ c ∷ rest) =
    if b == 0x05 then (if c == 0x00 then got tt rest else failed) else absent

-- `while (a > 0)`, with `len` and `buf`: a positive `int` has at most 4 bytes.
unfoldable pub int_loop : ℕ → ℕ → ℕ → List ℕ → ℕ × List ℕ
int_loop zero a len buf = (len, buf)
int_loop (suc n) a len buf =
    let rest = int_loop n (a >>> 8) (len + 1) (write buf (3 - len) (bit_and a 0xff ∷ [])) in
    if a == 0 then (len, buf) else rest

-- The last bytes of the buffer: all of the value, and one byte at least.
unfoldable pub int_bytes : ℕ × List ℕ → List ℕ
int_bytes (len, buf) = drop (4 - (if len == 0 then 1 else len)) buf

-- Whatever is not 1 becomes -1.
unfoldable pub only_written : Written → Written
only_written failed = failed
only_written absent = failed
only_written (written s) = written s

-- -1 stands for a missing value; the loop takes no round for any other negative one.
unfoldable pub int_to_der_ex : ℕ → ℤ → Sink → Written
int_to_der_ex tag (negsuc zero) s = absent
int_to_der_ex tag (negsuc (suc n)) s =
    only_written (integer_to_der_ex tag (some (int_bytes (0, replicate 4 0))) s)
int_to_der_ex tag (pos a) s =
    only_written (integer_to_der_ex tag (some (int_bytes (int_loop 4 a 0 (replicate 4 0)))) s)

-- `*a = ((*a) << 8) | p[i];` in 32 bits.
unfoldable pub int_value : ℕ → List ℕ → ℕ
int_value a [] = a
int_value a (b ∷ bs) = int_value (bit_or (u32 (a <<< 8)) b) bs

-- The checks of the size and of the sign.
unfoldable pub int_of : Read (List ℕ) → Read ℕ
int_of failed = failed
int_of absent = absent
int_of (got p rest) =
    let a = int_value 0 p in
    if ltb 4 (length p) then failed else (if ltb a (2 ^ 31) then got a rest else failed)

unfoldable pub int_from_der_ex : ℕ → List ℕ → Read ℕ
int_from_der_ex tag input = int_of (integer_from_der_ex tag input)
