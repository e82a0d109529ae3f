-- ===== src/Sm3/Kdf.antt =====
-- src/sm3_kdf.c and src/sm3_pbkdf2.c: output of any length from the hash and from the MAC.
pub mod Laws
use gm_ssl.Base.{ℕ, zero, suc, ◌+◌, ◌-◌, List, [], ◌∷◌, ◌++◌}
use gm_ssl.Endian.{putu32}
use gm_ssl.Mem.{memxor}
use gm_ssl.Sm3.{Ctx, init, update, finish}
use gm_ssl.Sm3.Hmac.{HmacCtx, hmac_init, hmac_update, hmac_finish}
use gm_ssl.Sm3.Counter.{emit}

pub record KdfCtx : Type 0 where
  pub sm3_ctx : Ctx
  pub outlen : ℕ

unfoldable pub kdf_init : ℕ → KdfCtx
kdf_init outlen = record { sm3_ctx = init; outlen = outlen }

unfoldable pub kdf_update : KdfCtx → List ℕ → KdfCtx
kdf_update ctx input = record ctx { sm3_ctx = update ctx.sm3_ctx input }

-- A round works on a copy of the context, so the next one starts where this one did.
unfoldable pub kdf_finish : KdfCtx → List ℕ
kdf_finish ctx =
    emit (λ counter. finish (update ctx.sm3_ctx (putu32 counter))) ctx.outlen 1 ctx.outlen

-- Any number of calls of `sm3_kdf_update`.
unfoldable pub kdf_updates : KdfCtx → List (List ℕ) → KdfCtx
kdf_updates ctx [] = ctx
kdf_updates ctx (x ∷ xs) = kdf_updates (kdf_update ctx x) xs

-- The inner loop of `sm3_pbkdf2`, with `n` rounds left.
unfoldable pub chain_loop : HmacCtx → ℕ → List ℕ → List ℕ → List ℕ
chain_loop tmpl zero tmp_block key_block = key_block
chain_loop tmpl (suc n) tmp_block key_block =
    let tmp = hmac_finish (hmac_update tmpl tmp_block) in
    chain_loop tmpl n tmp (memxor key_block tmp)

-- The block of one counter value.
unfoldable pub pbkdf2_block : HmacCtx → List ℕ → ℕ → ℕ → List ℕ
pbkdf2_block tmpl salt count iter =
    let tmp = hmac_finish (hmac_update (hmac_update tmpl salt) (putu32 iter)) in
    chain_loop tmpl (count - 1) tmp tmp

unfoldable pub pbkdf2 : List ℕ → List ℕ → ℕ → ℕ → List ℕ
pbkdf2 pass salt count outlen = emit (pbkdf2_block (hmac_init pass) salt count) outlen 1 outlen
