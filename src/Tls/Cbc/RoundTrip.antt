-- ===== src/Tls/Cbc/RoundTrip.antt =====
-- A protected record opens to the record that was protected.
use gm_ssl.Base.{ℕ, ◌+◌, ◌-◌, ◌*◌, ◌/◌, ◌%◌, ◌^◌, ◌≤◌, arith, ◌≡◌, refl, sym, ap, ◌∙◌}
use gm_ssl.Base.{List, [], ◌∷◌, ◌++◌, length, drop, replicate, u8, some}
use gm_ssl.Base.{length-append, length-replicate, take-append_eq, drop-append_eq, take_all}
use gm_ssl.Base.{
  drop-append_le, All, IsByte, All-append, All-replicate, le→ltb, eq→==, ◌>>>◌, ◌<<<◌,
}
use mathlib.Core.Option
use gm_ssl.Stream.Loop.{iterate-append, iterate-add}
use gm_ssl.Sm3.Hmac.{HmacCtx}
use gm_ssl.Sm4.{set_encrypt_key, set_decrypt_key}
use gm_ssl.Sm4.Inverse.{IsBlock}
use gm_ssl.Sm4.Blocks.{cbc_encrypt_step}
use gm_ssl.Sm4.Cbc.{cbc_encrypt_blocks, cbc_decrypt_blocks}
use gm_ssl.Sm4.Cbc.Laws.{cbc_decrypt_blocks-encrypt, length-cbc_encrypt_blocks}
use gm_ssl.Tls.Cbc.{record_mac, last_blocks, cbc_encrypt, cbc_decrypt, with_header}
use gm_ssl.Tls.Cbc.{record_encrypt, record_decrypt}
use gm_ssl.Tls.Cbc.Plain.{IsMac, record_mac-IsMac, sealed_plain, open_plain-sealed}

module _ (key iv mac input : List ℕ) (hm : IsMac mac) where
  abbrev pad : ℕ
  pad = 15 - length input % 16

  abbrev q : ℕ
  q = length input / 16

  abbrev whole : List ℕ
  whole = sealed_plain mac input

  last_lem : last_blocks mac input ≡ drop (q * 16) whole
  unfolding last_blocks sealed_plain
  last_lem =
      let rem : (length input + 32) % 16 ≡ length input % 16 = omega arith in
      let start : length input - length input % 16 ≡ q * 16 = omega arith in
      let count : 16 - length input % 16 - 1 ≡ pad = omega arith in
      let small : u8 pad ≡ pad = omega arith in
      rw
        (
          rem,
          start,
          count,
          small,
          drop-append_le (q * 16) input (mac ++ replicate (pad + 1) pad) (omega arith),
        )
        refl

  -- The two calls of the CBC loop are one over the whole plaintext.
  joined_blocks :
      (cbc_encrypt_blocks key iv (q + 3) whole).1
      ≡ (cbc_encrypt_blocks key iv q input).1
        ++ (cbc_encrypt_blocks key
            (cbc_encrypt_blocks key iv q input).0
            3
            (last_blocks mac input)).1
  unfolding cbc_encrypt_blocks
  joined_blocks = rw (iterate-add 16 (cbc_encrypt_step key) iv q 3 whole, prefix, ← last_lem) refl
    where
      prefix : cbc_encrypt_blocks key iv q whole ≡ cbc_encrypt_blocks key iv q input
      prefix =
          unfold cbc_encrypt_blocks sealed_plain in
          iterate-append 16 (cbc_encrypt_step key) iv q input (mac ++ replicate (pad + 1) pad)
            (omega arith)

  length-whole : length whole ≡ (q + 3) * 16
  unfolding sealed_plain
  length-whole = omega (
    arith,
    length-append input (mac ++ replicate (pad + 1) pad),
    length-append mac (replicate (pad + 1) pad),
    hm.size,
    length-replicate (pad + 1) pad,
  )

  whole-IsByte : All IsByte input → All IsByte whole
  unfolding sealed_plain
  whole-IsByte h = All-append IsByte input (mac ++ replicate (pad + 1) pad) h (
      All-append IsByte mac (replicate (pad + 1) pad) hm.bytes
        (All-replicate IsByte (pad + 1) pad (omega arith)))

-- The five bytes of a header.
abbrev pub header_of : ℕ → ℕ → ℕ → ℕ → List ℕ
header_of t v w len = t ∷ v ∷ w ∷ u8 (len >>> 8) ∷ u8 len ∷ []

module _ (user_key seq_num : List ℕ) (ctx : HmacCtx) (t v w : ℕ) where
  module _ (iv input : List ℕ) (hi : IsBlock iv) (hx : All IsByte input)
      (n : length input ≤ 2 ^ 14) where
    abbrev header : List ℕ
    header = header_of t v w (length input)

    abbrev mac_of : List ℕ
    mac_of = record_mac ctx seq_num header input

    hm : IsMac mac_of
    hm = record_mac-IsMac ctx seq_num header input

    abbrev count : ℕ
    count = length input / 16 + 3

    abbrev sealed_body : List ℕ
    sealed_body =
        (cbc_encrypt_blocks (set_encrypt_key user_key) iv count (sealed_plain mac_of input)).1

    body_size : length sealed_body ≡ count * 16
    body_size =
        length-cbc_encrypt_blocks (set_encrypt_key user_key) iv count (sealed_plain mac_of input)

    cbc_encrypt_lem :
        (rest : List ℕ)
        → cbc_encrypt ctx (set_encrypt_key user_key) seq_num (header ++ rest) (some iv) input
          ≡ some (iv ++ sealed_body)
    unfolding cbc_encrypt
    cbc_encrypt_lem rest =
        rw
          (
            le→ltb (2 ^ 14) (length input) n,
            eq→== (u8 (length input >>> 8) <<< 8 + u8 (length input)) (length input) (omega arith),
          )
          (ap (λ b. some (iv ++ b))
            (sym (joined_blocks (set_encrypt_key user_key) iv mac_of input hm)))

    opened :
        (cbc_decrypt_blocks (set_decrypt_key user_key) iv count sealed_body).1
        ≡ sealed_plain mac_of input
    opened =
        ap (λ r. r.1)
          (cbc_decrypt_blocks-encrypt user_key iv count (sealed_plain mac_of input) hi
            (whole-IsByte (set_encrypt_key user_key) iv mac_of input hm hx)
            (omega (arith, length-whole (set_encrypt_key user_key) iv mac_of input hm)))
        ∙ take_all (count * 16) (sealed_plain mac_of input)
            (omega (arith, length-whole (set_encrypt_key user_key) iv mac_of input hm))

    size : length (iv ++ sealed_body) ≡ 16 + count * 16
    size = omega (arith, length-append iv sealed_body, hi.size, body_size)

    cbc_decrypt_lem :
        (rest : List ℕ)
        → cbc_decrypt ctx (set_decrypt_key user_key) seq_num (t ∷ v ∷ w ∷ rest) (iv ++ sealed_body)
          ≡ some input
    unfolding cbc_decrypt
    cbc_decrypt_lem rest =
        rw
          (
            size,
            take-append_eq 16 iv sealed_body hi.size,
            drop-append_eq 16 iv sealed_body hi.size,
            body_size,
            blocks,
            opened,
            le→ltb 0 ((16 + count * 16) % 16) (omega arith),
            le→ltb (16 + count * 16) 64 (omega arith),
            le→ltb 16688 (16 + count * 16) (omega arith),
          )
          (open_plain-sealed ctx seq_num (t ∷ v ∷ w ∷ rest) header input refl)
      where
        blocks : count * 16 / 16 ≡ count
        blocks = omega arith

  -- For every user key, MAC context and sequence number, and every fragment of at most 2 ^ 14 bytes
  -- behind a header whose length field is right: `tls_record_encrypt` succeeds, whatever block of
  -- bytes `rand_bytes` delivers, and `tls_record_decrypt` opens the result to the same record.
  pub record_decrypt-encrypt :
      (iv input : List ℕ)
      → IsBlock iv
      → All IsByte input
      → length input ≤ 2 ^ 14
      → (c : List ℕ) × (record_encrypt ctx
            (set_encrypt_key user_key)
            seq_num
            (some iv)
            (header_of t v w (length input) ++ input)
          ≡ some c)
        × (record_decrypt ctx (set_decrypt_key user_key) seq_num c
            ≡ some (header_of t v w (length input) ++ input))
  unfolding record_encrypt record_decrypt with_header
  record_decrypt-encrypt iv input hi hx n = (
    header_of t v w (length fragment) ++ fragment,
    ap (Option.map (with_header (header_of t v w (length input) ++ input)))
        (cbc_encrypt_lem iv input hi hx n input),
    ap (Option.map (with_header (header_of t v w (length fragment) ++ fragment))) (
        cbc_decrypt_lem iv input hi hx n
          (u8 (length fragment >>> 8) ∷ u8 (length fragment) ∷ fragment)),
  )
    where
      fragment : List ℕ
      fragment = iv ++ sealed_body iv input hi hx n
