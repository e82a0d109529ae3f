-- ===== src/Tls/Cbc.antt =====
-- `tls_cbc_encrypt`, `tls_cbc_decrypt`, `tls_record_encrypt` and `tls_record_decrypt` of src/tls.c:
-- the MAC goes behind the data, padding fills the last block, and CBC encrypts all of it.
pub mod Plain
pub mod RoundTrip
use gm_ssl.Base.{
  ℕ, zero, suc, ◌+◌, ◌-◌, ◌*◌, ◌/◌, ◌%◌, ◌^◌, List, [], ◌∷◌, ◌++◌, get_or, take, drop,
}
use gm_ssl.Base.{length, replicate, Bool, true, false, ◌&&◌, ◌||◌, ltb, ◌==◌, if◌then◌else◌, u8}
use gm_ssl.Base.{Option, none, some, ◌>>>◌, ◌<<<◌}
use mathlib.Core.Option
use gm_ssl.Mem.{secure_memcmp}
use gm_ssl.Sm3.Hmac.{HmacCtx, hmac_update, hmac_finish}
use gm_ssl.Sm4.Cbc.{cbc_encrypt_blocks, cbc_decrypt_blocks}

-- The MAC over the sequence number, the header and the data, on a copy of the context.
unfoldable pub record_mac : HmacCtx → List ℕ → List ℕ → List ℕ → List ℕ
record_mac ctx seq_num header input =
    hmac_finish (hmac_update (hmac_update (hmac_update ctx seq_num) header) input)

-- `last_blocks`: the bytes behind the whole blocks, the MAC, and `padding_len + 1` bytes of padding.
unfoldable pub last_blocks : List ℕ → List ℕ → List ℕ
last_blocks mac input =
    let rem = (length input + 32) % 16 in
    let padding_len = 16 - rem - 1 in
    drop (length input - rem) input ++ (mac ++ replicate (padding_len + 1) (u8 padding_len))

-- `iv` is what `rand_bytes` delivers, `none` where it fails. The result is `none` for -1.
unfoldable pub cbc_encrypt :
    HmacCtx → List ℕ → List ℕ → List ℕ → Option (List ℕ) → List ℕ → Option (List ℕ)
cbc_encrypt ctx key seq_num header random input =
    let last = last_blocks (record_mac ctx seq_num (take 5 header) input) input in
    let sealed = λ (iv : List ℕ).
      let (iv', o) = cbc_encrypt_blocks key iv (length input / 16) input in
      iv ++ (o ++ (cbc_encrypt_blocks key iv' (48 / 16) last).1) in
    if ltb (2 ^ 14) (length input)
    then none
    else (if (get_or header 3 0 <<< 8) + get_or header 4 0 == length input
        then Option.map sealed random
        else none)

-- The padding check, over the bytes in front of the last one.
unfoldable pub all_equal : ℕ → List ℕ → Bool
all_equal v [] = true
all_equal v (b ∷ bs) = (b == v) && all_equal v bs

-- The checks behind the decryption of `out`, which holds `inlen` bytes.
unfoldable pub open_plain : HmacCtx → List ℕ → List ℕ → List ℕ → Option (List ℕ)
open_plain ctx seq_num enced_header out =
    let inlen = length out in
    let padding_len = get_or out (inlen - 1) 0 in
    let padding = inlen - padding_len - 1 in
    let outlen = padding - 32 in
    let header = take 3 enced_header ++ (u8 (outlen >>> 8) ∷ u8 outlen ∷ []) in
    let mac = take 32 (drop outlen out) in
    if ltb inlen (32 + padding_len + 1)
    then none
    else (if all_equal padding_len (take padding_len (drop padding out))
        then (if secure_memcmp mac (record_mac ctx seq_num header (take outlen out)) == 0
            then some (take outlen out)
            else none)
        else none)

unfoldable pub cbc_decrypt : HmacCtx → List ℕ → List ℕ → List ℕ → List ℕ → Option (List ℕ)
cbc_decrypt ctx key seq_num enced_header input =
    let inlen = length input in
    let body = drop 16 input in
    let out = (cbc_decrypt_blocks key (take 16 input) (length body / 16) body).1 in
    if ltb 0 (inlen % 16) || (ltb inlen (16 + 0 + 32 + 16) || ltb (16 + 2 ^ 14 + 32 + 256) inlen)
    then none
    else open_plain ctx seq_num enced_header out

-- The header of the result: type and version as they were, and the new length.
unfoldable pub with_header : List ℕ → List ℕ → List ℕ
with_header header fragment =
    take 3 header ++ (u8 (length fragment >>> 8) ∷ u8 (length fragment) ∷ fragment)

-- Every caller passes a record of at least the five header bytes.
unfoldable pub record_encrypt :
    HmacCtx → List ℕ → List ℕ → Option (List ℕ) → List ℕ → Option (List ℕ)
record_encrypt ctx key seq_num random input =
    Option.map (with_header input) (cbc_encrypt ctx key seq_num input random (drop 5 input))

unfoldable pub record_decrypt : HmacCtx → List ℕ → List ℕ → List ℕ → Option (List ℕ)
record_decrypt ctx key seq_num input =
    Option.map (with_header input) (cbc_decrypt ctx key seq_num input (drop 5 input))
