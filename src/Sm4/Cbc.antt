-- ===== src/Sm4/Cbc.antt =====
-- src/sm4_cbc.c: CBC with the padding of PKCS #7.
pub mod Laws
pub mod Streaming
pub mod Decrypting
use gm_ssl.Base.{ℕ, ◌+◌, ◌-◌, ◌*◌, ◌/◌, ◌%◌, List, [], ◌∷◌, ◌++◌, get_or, take, drop, length}
use gm_ssl.Base.{replicate, Bool, true, false, ◌||◌, leb, ltb, ◌==◌, if◌then◌else◌}
use gm_ssl.Mem.{write}
use gm_ssl.Stream.{iterate, absorb_back}
use gm_ssl.Sm4.{set_encrypt_key, set_decrypt_key}
use gm_ssl.Sm4.Blocks.{Ctx, Reply, failed, needs, done, setup, update}
use gm_ssl.Sm4.Blocks.{cbc_encrypt_step, cbc_decrypt_step}

-- `sm4_cbc_encrypt_blocks` and `sm4_cbc_decrypt_blocks`: the iv after the loop, and the output.
unfoldable pub cbc_encrypt_blocks : List ℕ → List ℕ → ℕ → List ℕ → List ℕ × List ℕ
cbc_encrypt_blocks key iv nblocks input = iterate 16 (cbc_encrypt_step key) iv nblocks input

unfoldable pub cbc_decrypt_blocks : List ℕ → List ℕ → ℕ → List ℕ → List ℕ × List ℕ
cbc_decrypt_blocks key iv nblocks input = iterate 16 (cbc_decrypt_step key) iv nblocks input

-- The last block: the bytes behind the whole blocks, and the padding.
unfoldable pub padded_block : List ℕ → List ℕ
padded_block input =
    let rem = length input % 16 in
    let padding = 16 - rem in drop (length input - rem) input ++ replicate padding padding

unfoldable pub padding_encrypt : List ℕ → List ℕ → List ℕ → List ℕ
padding_encrypt key piv input =
    let (iv, o) = cbc_encrypt_blocks key piv (length input / 16) input in
    let (iv', o') = cbc_encrypt_blocks key iv 1 (padded_block input) in o ++ o'

-- The results 0, -1 and 1 of `sm4_cbc_padding_decrypt`.
pub data Opened : Type 0 where
  empty : Opened
  invalid : Opened
  plain : List ℕ → Opened

-- The last block in the clear: its last byte says how much of it is padding.
unfoldable pub unpadded : List ℕ → List ℕ → Opened
unpadded o block =
    let padding = get_or block 15 0 in
    if ltb padding 1 || ltb 16 padding then invalid else plain (o ++ take (16 - padding) block)

unfoldable pub padding_decrypt : List ℕ → List ℕ → List ℕ → Opened
padding_decrypt key piv input =
    let inlen = length input in
    let (iv, o) = cbc_decrypt_blocks key piv (inlen / 16 - 1) input in
    let (iv', block) = cbc_decrypt_blocks key iv 1 (drop (inlen - 16) input) in
    if inlen == 0
    then empty
    else (if ltb 0 (inlen % 16) || ltb inlen 16 then invalid else unpadded o block)

unfoldable pub encrypt_init : List ℕ → List ℕ → Ctx (List ℕ)
encrypt_init key iv = setup (set_encrypt_key key) iv

unfoldable pub encrypt_update : Bool → Ctx (List ℕ) → List ℕ → Reply (Ctx (List ℕ))
encrypt_update = update cbc_encrypt_step

-- The bytes that are taken in the block are the last ones of the message.
unfoldable pub encrypt_finish : Bool → Ctx (List ℕ) → Reply (Ctx (List ℕ))
encrypt_finish out ctx =
    let b = ctx.buffer in
    if out
    then (if leb 16 b.nbytes
        then failed
        else done ctx (padding_encrypt ctx.sm4_key b.chain (take b.nbytes b.block)))
    else needs 16

unfoldable pub decrypt_init : List ℕ → List ℕ → Ctx (List ℕ)
decrypt_init key iv = setup (set_decrypt_key key) iv

unfoldable pub decrypt_update : Bool → Ctx (List ℕ) → List ℕ → Reply (Ctx (List ℕ))
decrypt_update out ctx input =
    let (buffer', o) = absorb_back 16 (cbc_decrypt_step ctx.sm4_key) ctx.buffer input in
    if out
    then (if ltb 16 ctx.buffer.nbytes then failed else done (record ctx { buffer = buffer' }) o)
    else needs (16 * ((length input + 15) / 16))

-- Whatever is not 1 becomes -1.
unfoldable pub opened : Ctx (List ℕ) → Opened → Reply (Ctx (List ℕ))
opened ctx empty = failed
opened ctx invalid = failed
opened ctx (plain o) = done ctx o

unfoldable pub decrypt_finish : Bool → Ctx (List ℕ) → Reply (Ctx (List ℕ))
decrypt_finish out ctx =
    let b = ctx.buffer in
    if out
    then (if b.nbytes == 16
        then opened ctx (padding_decrypt ctx.sm4_key b.chain b.block)
        else failed)
    else needs 16
