-- ===== src/Sm4/Authenticated.antt =====
-- src/sm4_cbc_sm3_hmac.c and src/sm4_ctr_sm3_hmac.c: encryption with a MAC over the additional data
-- and the ciphertext. The two files are the same text but for the calls on `ctx->enc_ctx`, which are
-- a record here.
pub mod Calls
pub mod Ciphers
pub mod Sealing
pub mod Held
pub mod Updating
pub mod Opening
pub mod RoundTrip
mod Tests
use gm_ssl.Base.{ℕ, ◌+◌, ◌-◌, List, [], ◌∷◌, ◌++◌, take, drop, length, replicate}
use gm_ssl.Base.{Bool, true, false, leb, ltb, ◌==◌, ◌&&◌, if◌then◌else◌, Option, none, some}
use gm_ssl.Mem.{write}
use gm_ssl.Sm3.Hmac.{HmacCtx, hmac_init, hmac_update, hmac_finish}
use gm_ssl.Sm4.Blocks.{Ctx, Reply, failed, needs, done, run}
use gm_ssl.Sm4.Cbc
use gm_ssl.Sm4.Ctr

-- The calls on the cipher's context.
pub record Cipher : Type 0 where
  pub init : List ℕ → List ℕ → Ctx (List ℕ)
  pub update : Bool → Ctx (List ℕ) → List ℕ → Reply (Ctx (List ℕ))
  pub finish : Bool → Ctx (List ℕ) → Reply (Ctx (List ℕ))

abbrev pub cbc_encryption : Cipher
cbc_encryption = record {
  init = Cbc.encrypt_init;
  update = Cbc.encrypt_update;
  finish = Cbc.encrypt_finish;
}

abbrev pub cbc_decryption : Cipher
cbc_decryption = record {
  init = Cbc.decrypt_init;
  update = Cbc.decrypt_update;
  finish = Cbc.decrypt_finish;
}

-- For both directions of the counter mode.
abbrev pub ctr_encryption : Cipher
ctr_encryption = record {
  init = Ctr.ctr_encrypt_init;
  update = Ctr.ctr_encrypt_update;
  finish = Ctr.ctr_encrypt_finish;
}

-- SM4_CBC_SM3_HMAC_CTX and SM4_CTR_SM3_HMAC_CTX.
pub record AuthCtx : Type 0 where
  pub enc_ctx : Ctx (List ℕ)
  pub mac_ctx : HmacCtx
  pub mac : List ℕ
  pub maclen : ℕ

-- What the decryption's update leaves: a reply, or a 1 without a write to `*outlen`.
pub data Opened : Type 0 where
  replied : Reply AuthCtx → Opened
  kept : AuthCtx → Opened

-- The C standard's `memcmp`, as far as its result is 0.
unfoldable pub memcmp_is_zero : List ℕ → List ℕ → Bool
memcmp_is_zero [] bs = true
memcmp_is_zero (a ∷ as') [] = true
memcmp_is_zero (a ∷ as') (b ∷ bs) = (a == b) && memcmp_is_zero as' bs

-- The end of the decryption's finish: what the cipher's finish replied, and if the MACs are equal.
unfoldable pub checked : AuthCtx → Bool → Reply (Ctx (List ℕ)) → Reply AuthCtx
checked ctx equal failed = failed
checked ctx equal (needs n) = needs n
checked ctx equal (done enc_ctx out) =
    if equal
    then done (record ctx { enc_ctx = enc_ctx; mac = replicate 32 0; maclen = 0 }) out
    else failed

module _ (cipher : Cipher) where
  -- `key` has the cipher's 16 bytes, and 32 for the MAC behind them.
  unfoldable pub init : List ℕ → List ℕ → List ℕ → AuthCtx
  init key iv aad =
      let mac_ctx = hmac_init (take 32 (drop 16 key)) in
      record {
        enc_ctx = cipher.init (take 16 key) iv;
        mac_ctx = if ltb 0 (length aad) then hmac_update mac_ctx aad else mac_ctx;
        mac = replicate 32 0;
        maclen = 0;
      }

  -- There is always an output buffer: the cipher's update is not asked for a size.
  unfoldable pub encrypt_update : AuthCtx → List ℕ → Reply AuthCtx
  encrypt_update ctx input = elim (cipher.update true ctx.enc_ctx input) [
    | failed ↦ failed
    | needs n ↦ needs n
    | done enc_ctx out ↦
        done (record ctx { enc_ctx = enc_ctx; mac_ctx = hmac_update ctx.mac_ctx out }) out
  ]

  -- The MAC is written behind what is left of the ciphertext.
  unfoldable pub encrypt_finish : AuthCtx → Reply AuthCtx
  encrypt_finish ctx = elim (cipher.finish true ctx.enc_ctx) [
    | failed ↦ failed
    | needs n ↦ needs n
    | done enc_ctx out ↦
        let mac_ctx = hmac_update ctx.mac_ctx out in
        done (record ctx { enc_ctx = enc_ctx; mac_ctx = mac_ctx }) (out ++ hmac_finish mac_ctx)
  ]

  -- `sm3_hmac_update` and the cipher's update on the same bytes.
  unfoldable pub release : AuthCtx → List ℕ → Reply AuthCtx
  release ctx bytes = elim (cipher.update true ctx.enc_ctx bytes) [
    | failed ↦ failed
    | needs n ↦ needs n
    | done enc_ctx out ↦
        done (record ctx { enc_ctx = enc_ctx; mac_ctx = hmac_update ctx.mac_ctx bytes }) out
  ]

  -- At most 32 bytes behind 32 that are held: as many of these are released.
  unfoldable pub shift_mac : AuthCtx → List ℕ → Reply AuthCtx
  shift_mac ctx input =
      let inlen = length input in
      elim (release ctx (take inlen ctx.mac)) [
        | failed ↦ failed
        | needs n ↦ needs n
        | done ctx' out ↦
            done (record ctx' { mac = take (32 - inlen) (drop inlen ctx'.mac) ++ input }) out
      ]

  -- More than 32 bytes: all that were held are released, and of the input all but the last 32.
  unfoldable pub replace_mac : AuthCtx → List ℕ → Reply AuthCtx
  replace_mac ctx input =
      let inlen = length input - 32 in
      elim (release ctx ctx.mac) [
        | failed ↦ failed
        | needs n ↦ needs n
        | done ctx' out ↦ elim (release ctx' (take inlen input)) [
          | failed ↦ failed
          | needs n ↦ needs n
          | done ctx'' out' ↦
              done (record ctx'' { mac = write ctx''.mac 0 (drop inlen input) }) (out ++ out')
        ]
      ]

  unfoldable pub pass_on : AuthCtx → List ℕ → Reply AuthCtx
  pass_on ctx input = if leb (length input) 32 then shift_mac ctx input else replace_mac ctx input

  -- Input that fits behind the bytes that are held is kept.
  unfoldable pub decrypt_update : AuthCtx → List ℕ → Opened
  decrypt_update ctx input =
      let len = 32 - ctx.maclen in
      if ltb 32 ctx.maclen
      then replied failed
      else (if ltb ctx.maclen 32
          then (if leb (length input) len
              then kept (record ctx {
                mac = write ctx.mac ctx.maclen input;
                maclen = ctx.maclen + length input;
              })
              else replied (
                  pass_on
                    (record ctx {
                      mac = write ctx.mac ctx.maclen (take len input);
                      maclen = ctx.maclen + len;
                    })
                    (drop len input)))
          else replied (pass_on ctx input))

  -- The cipher is finished before the MACs are compared.
  unfoldable pub decrypt_finish : AuthCtx → Reply AuthCtx
  decrypt_finish ctx =
      let mac = hmac_finish ctx.mac_ctx in
      if ctx.maclen == 32
      then checked ctx (memcmp_is_zero mac ctx.mac) (cipher.finish true ctx.enc_ctx)
      else failed

unfoldable pub encrypt_all : Cipher → List ℕ → List ℕ → List ℕ → List (List ℕ) → Option (List ℕ)
encrypt_all cipher key iv aad xs =
    run (encrypt_update cipher) (encrypt_finish cipher) (init cipher key iv aad) xs

-- A caller that takes `*outlen` bytes from `out` after the call, where the two hold `outlen` and
-- `out` before it.
unfoldable pub received : ℕ → List ℕ → Opened → Reply AuthCtx
received outlen out (replied r) = r
received outlen out (kept ctx) = done ctx (take outlen out)

unfoldable pub called : (AuthCtx → List ℕ → Opened) → ℕ → List ℕ → AuthCtx → List ℕ → Reply AuthCtx
called update outlen out ctx input = received outlen out (update ctx input)

unfoldable pub decrypt_all :
    Cipher → ℕ → List ℕ → List ℕ → List ℕ → List ℕ → List (List ℕ) → Option (List ℕ)
decrypt_all cipher outlen out key iv aad xs =
    run (called (decrypt_update cipher) outlen out) (decrypt_finish cipher) (init cipher key iv aad)
      xs
