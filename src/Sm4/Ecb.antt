-- ===== src/Sm4/Ecb.antt =====
-- src/sm4_ecb.c: the two contexts of ECB. Neither pads, so the finish refuses a message that is not
-- whole blocks.
pub mod Laws
use gm_ssl.Base.{ℕ, List, [], Bool, true, false, leb, ◌==◌, if◌then◌else◌}
use gm_ssl.Stream.{iterate}
use gm_ssl.Sm4.{set_encrypt_key, set_decrypt_key}
use gm_ssl.Sm4.Blocks.{Ctx, Reply, failed, needs, done, setup, update, ecb_step}

-- `sm4_encrypt_blocks`: the output.
unfoldable pub encrypt_blocks : List ℕ → ℕ → List ℕ → List ℕ
encrypt_blocks key nblocks input = (iterate 16 (ecb_step key) tt nblocks input).1

unfoldable pub ecb_encrypt_init : List ℕ → Ctx (Unit {0})
ecb_encrypt_init key = setup (set_encrypt_key key) tt

unfoldable pub ecb_encrypt_update : Bool → Ctx (Unit {0}) → List ℕ → Reply (Ctx (Unit {0}))
ecb_encrypt_update = update ecb_step

-- Both refusals return -1.
unfoldable pub ecb_encrypt_finish : Bool → Ctx (Unit {0}) → Reply (Ctx (Unit {0}))
ecb_encrypt_finish out ctx =
    let nbytes = ctx.buffer.nbytes in
    if out
    then (if leb 16 nbytes then failed else (if nbytes == 0 then done ctx [] else failed))
    else needs 16

unfoldable pub ecb_decrypt_init : List ℕ → Ctx (Unit {0})
ecb_decrypt_init key = setup (set_decrypt_key key) tt

unfoldable pub ecb_decrypt_update : Bool → Ctx (Unit {0}) → List ℕ → Reply (Ctx (Unit {0}))
ecb_decrypt_update = ecb_encrypt_update

unfoldable pub ecb_decrypt_finish : Bool → Ctx (Unit {0}) → Reply (Ctx (Unit {0}))
ecb_decrypt_finish = ecb_encrypt_finish
