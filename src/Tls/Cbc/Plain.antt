-- ===== src/Tls/Cbc/Plain.antt =====
-- The checks of `tls_cbc_decrypt` accept what `tls_cbc_encrypt` put behind the data.
use gm_ssl.Base.{ℕ, zero, suc, ◌+◌, ◌-◌, ◌%◌, arith, ◌≡◌, refl, sym, ap, ap₂, ◌∙◌}
use gm_ssl.Base.{List, [], ◌∷◌, ◌++◌, append_assoc, length, take, drop, get_or, replicate}
use gm_ssl.Base.{length-append, length-replicate, take-append_eq}
use gm_ssl.Base.{drop-append_eq, get_or-append_ge, get_or-replicate, Bool, true, false}
use gm_ssl.Base.{if◌then◌else◌, u8, some, eq→==, le→ltb, IsByte, All}
use gm_ssl.Base.{replicate-add, ◌>>>◌}
use gm_ssl.Mem.Laws.{secure_memcmp_iff}
use gm_ssl.Endian.{putu32}
use gm_ssl.Sm3.{Ctx, finish, digest_bytes}
use gm_ssl.Sm3.Compress.{Vars}
use gm_ssl.Sm3.Hmac.{HmacCtx, hmac_finish}
use gm_ssl.Tls.Cbc.{record_mac, all_equal, open_plain}

-- Every digest and every MAC has 32 bytes.
pub record IsMac (mac : List ℕ) : Type 0 where
  pub size : length mac ≡ 32
  pub bytes : All IsByte mac

digest_bytes-IsMac : (v : Vars) → IsMac (digest_bytes v)
unfolding digest_bytes putu32
digest_bytes-IsMac v = record { size = refl; bytes = omega arith }

either-IsMac : (b : Bool) (v w : Vars) → IsMac (if b then digest_bytes v else digest_bytes w)
either-IsMac true v w = digest_bytes-IsMac v
either-IsMac false v w = digest_bytes-IsMac w

finish-IsMac : (ctx : Ctx) → IsMac (finish ctx)
unfolding finish
finish-IsMac ctx = either-IsMac _ _ _

pub record_mac-IsMac :
    (ctx : HmacCtx) (seq_num header input : List ℕ) → IsMac (record_mac ctx seq_num header input)
unfolding record_mac hmac_finish
record_mac-IsMac ctx seq_num header input = finish-IsMac _

all_equal-replicate : (v n : ℕ) → all_equal v (replicate n v) ≡ true
unfolding all_equal
all_equal-replicate v zero = refl
all_equal-replicate v (suc n) = rw (eq→== v v refl) (all_equal-replicate v n)

-- The plaintext that is encrypted: the data, the MAC, and bytes that all say how many more there
-- are.
unfoldable pub sealed_plain : List ℕ → List ℕ → List ℕ
sealed_plain mac input =
    let pad = 15 - length input % 16 in input ++ (mac ++ replicate (pad + 1) pad)

module _ (ctx : HmacCtx) (seq_num enced_header header input : List ℕ) where
  abbrev mac : List ℕ
  mac = record_mac ctx seq_num header input

  abbrev pad : ℕ
  pad = 15 - length input % 16

  abbrev padding : List ℕ
  padding = replicate (pad + 1) pad

  -- The decrypting side rebuilds the header that was authenticated.
  abbrev pub SameHeader : Type 0
  SameHeader = take 3 enced_header ++ (u8 (length input >>> 8) ∷ u8 (length input) ∷ []) ≡ header

  abbrev whole : List ℕ
  whole = sealed_plain mac input

  mac_size : length mac ≡ 32
  mac_size = (record_mac-IsMac ctx seq_num header input).size

  length-whole : length whole ≡ length input + 32 + pad + 1
  unfolding sealed_plain
  length-whole = omega (
    arith,
    length-append input (mac ++ padding),
    length-append mac padding,
    mac_size,
    length-replicate (pad + 1) pad,
  )

  regroup : whole ≡ (input ++ mac) ++ padding
  unfolding sealed_plain
  regroup = sym (append_assoc input mac padding)

  front_size : length (input ++ mac) ≡ length input + 32
  front_size = omega (arith, length-append input mac, mac_size)

  last_byte : get_or whole (length input + 32 + pad + 1 - 1) 0 ≡ pad
  last_byte =
      let e : length (input ++ mac) + pad ≡ length input + 32 + pad + 1 - 1 =
        omega (arith, front_size) in
      ap₂ (λ l i. get_or l i 0) regroup (sym e)
      ∙ get_or-append_ge (input ++ mac) padding pad 0
      ∙ get_or-replicate (pad + 1) pad pad 0 (omega arith)

  padding_bytes : take pad (drop (length input + 32) whole) ≡ replicate pad pad
  padding_bytes =
      ap (λ l. take pad (drop (length input + 32) l)) regroup
      ∙ ap (take pad) (drop-append_eq (length input + 32) (input ++ mac) padding front_size)
      ∙ ap (take pad) (replicate-add pad 1 pad)
      ∙ take-append_eq pad (replicate pad pad) (pad ∷ []) (length-replicate pad pad)

  data_bytes : take (length input) whole ≡ input
  unfolding sealed_plain
  data_bytes = take-append_eq (length input) input (mac ++ padding) refl

  mac_bytes : take 32 (drop (length input) whole) ≡ mac
  unfolding sealed_plain
  mac_bytes =
      ap (take 32) (drop-append_eq (length input) input (mac ++ padding) refl)
      ∙ take-append_eq 32 mac padding mac_size

  pub open_plain-sealed : SameHeader → open_plain ctx seq_num enced_header whole ≡ some input
  unfolding open_plain
  open_plain-sealed same =
      rw
        (
          length-whole,
          last_byte,
          start,
          outlen,
          padding_bytes,
          all_equal-replicate pad pad,
          data_bytes,
          same,
          mac_bytes,
          le→ltb (length input + 32 + pad + 1) (32 + pad + 1) (omega arith),
          (secure_memcmp_iff mac mac refl).1 refl,
        )
        refl
    where
      start : length input + 32 + pad + 1 - pad - 1 ≡ length input + 32
      start = omega arith

      outlen : length input + 32 - 32 ≡ length input
      outlen = omega arith
