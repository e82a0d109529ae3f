-- ===== src/Sm3/Hmac.antt =====
-- src/sm3_hmac.c. SM3_HMAC_CTX is the inner hash with the padded key.
pub mod Laws
pub mod Fed
use gm_ssl.Base.{ℕ, ◌-◌, bit_xor, List, [], ◌∷◌, ◌++◌, map, length, replicate, leb, if◌then◌else◌}
use gm_ssl.Sm3.{Ctx, init, update, finish}

pub record HmacCtx : Type 0 where
  pub sm3_ctx : Ctx
  pub key : List ℕ

abbrev pub ipad : ℕ
ipad = 0x36

abbrev pub opad : ℕ
opad = 0x5C

-- `for (i = 0; i < SM3_BLOCK_SIZE; i++) key[i] ^= mask;`
unfoldable pub mask_key : ℕ → List ℕ → List ℕ
mask_key mask key = map (λ b. bit_xor b mask) key

-- The key in 64 bytes: itself or its hash, with zero bytes behind it.
unfoldable pub block_key : List ℕ → List ℕ
block_key key =
    if leb (length key) 64
    then key ++ replicate (64 - length key) 0
    else finish (update init key) ++ replicate (64 - 32) 0

unfoldable pub hmac_init : List ℕ → HmacCtx
hmac_init key =
    let key' = mask_key ipad (block_key key) in record { sm3_ctx = update init key'; key = key' }

unfoldable pub hmac_update : HmacCtx → List ℕ → HmacCtx
hmac_update ctx input = record ctx { sm3_ctx = update ctx.sm3_ctx input }

unfoldable pub hmac_finish : HmacCtx → List ℕ
hmac_finish ctx =
    let key' = mask_key (bit_xor ipad opad) ctx.key in
    let mac = finish ctx.sm3_ctx in finish (update (update init key') mac)

-- Any number of calls of `sm3_hmac_update`.
unfoldable pub hmac_updates : HmacCtx → List (List ℕ) → HmacCtx
hmac_updates ctx [] = ctx
hmac_updates ctx (x ∷ xs) = hmac_updates (hmac_update ctx x) xs
