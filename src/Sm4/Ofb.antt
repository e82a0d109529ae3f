-- ===== src/Sm4/Ofb.antt =====
-- src/sm4_ofb.c: the one-shot function and the streaming context.
pub mod Laws
pub mod Streaming
use gm_ssl.Base.{
  ℕ, zero, suc, List, [], ◌∷◌, ◌++◌, take, drop, length, Bool, true, false, leb, if◌then◌else◌,
}
use gm_ssl.Mem.{memxor}
use gm_ssl.Sm4.{encrypt, set_encrypt_key}
use gm_ssl.Sm4.Blocks.{Ctx, Reply, failed, needs, done, setup, update, ofb_step}

-- The loop: the iv that is left and the output. Every round takes a byte at least, so that as many
-- rounds as there are bytes are enough.
unfoldable pub ofb_loop : ℕ → List ℕ → List ℕ → List ℕ → List ℕ × List ℕ
ofb_loop zero key iv input = (iv, [])
ofb_loop (suc rounds) key iv [] = (iv, [])
ofb_loop (suc rounds) key iv (x ∷ xs) =
    let iv' = encrypt key iv in
    let (iv'', o) = ofb_loop rounds key iv' (drop 16 (x ∷ xs)) in
    (iv'', memxor (take 16 (x ∷ xs)) iv' ++ o)

unfoldable pub ofb_encrypt : List ℕ → List ℕ → List ℕ → List ℕ × List ℕ
ofb_encrypt key iv input = ofb_loop (length input) key iv input

unfoldable pub ofb_encrypt_init : List ℕ → List ℕ → Ctx (List ℕ)
ofb_encrypt_init key iv = setup (set_encrypt_key key) iv

unfoldable pub ofb_encrypt_update : Bool → Ctx (List ℕ) → List ℕ → Reply (Ctx (List ℕ))
ofb_encrypt_update = update ofb_step

unfoldable pub ofb_encrypt_finish : Bool → Ctx (List ℕ) → Reply (Ctx (List ℕ))
ofb_encrypt_finish out ctx =
    let b = ctx.buffer in
    let (iv', o) = ofb_encrypt ctx.sm4_key b.chain (take b.nbytes b.block) in
    if out
    then (if leb 16 b.nbytes
        then failed
        else done (record ctx { buffer = record b { chain = iv' } }) o)
    else needs 16
