-- ===== src/Sm3.antt =====
-- src/sm3.c: the streaming hash. SM3_CTX is a buffer whose chaining value is the digest with the
-- count of compressed blocks.
pub mod Compress
pub mod Spec
pub mod Fed
pub mod Finish
pub mod Hmac
pub mod Counter
pub mod Kdf
mod Tests
use gm_ssl.Base.{ℕ, zero, suc, ◌+◌, ◌-◌, ◌*◌, ◌/◌, ◌%◌, ◌^◌, bit_and, u64, ◌<<<◌, ◌>>>◌}
use gm_ssl.Base.{List, [], ◌∷◌, ◌++◌, length, replicate, leb, if◌then◌else◌, foldl}
use gm_ssl.Endian.{putu32}
use gm_ssl.Mem.{write}
use gm_ssl.Stream.{Buffer, absorb}
use Compress.{Vars, compress}

pub record Chain : Type 0 where
  pub digest : Vars
  pub nblocks : ℕ

abbrev pub Ctx : Type 0
Ctx = Buffer Chain

-- The initial digest.
abbrev pub iv : Vars
iv = record {
  a = 0x7380166F;
  b = 0x4914B2B9;
  c = 0x172442D7;
  d = 0xDA8A0600;
  e = 0xA96F30BC;
  f = 0x163138AA;
  g = 0xE38DEE4D;
  h = 0xB0FB0E4E;
}

-- `sm3_compress_blocks(ctx->digest, …)` and `ctx->nblocks++` for one block, with no output.
unfoldable pub step : Chain → List ℕ → Chain × List ℕ
step s block = (record { digest = compress s.digest block; nblocks = u64 (s.nblocks + 1) }, [])

abbrev pub init_chain : Chain
init_chain = record { digest = iv; nblocks = 0 }

unfoldable pub init : Ctx
init = record { chain = init_chain; block = replicate 64 0; nbytes = 0 }

-- `ctx->num &= 0x3f` comes first.
unfoldable pub update : Ctx → List ℕ → Ctx
unfolding step
update ctx input = (absorb 64 step (record ctx { nbytes = bit_and ctx.nbytes 0x3f }) input).0

-- The eight words of the digest, big-endian.
unfoldable pub digest_bytes : Vars → List ℕ
digest_bytes v =
    putu32 v.a
    ++ (putu32 v.b
        ++ (putu32 v.c
            ++ (putu32 v.d ++ (putu32 v.e ++ (putu32 v.f ++ (putu32 v.g ++ putu32 v.h))))))

-- The end of `sm3_finish`: the two length words are written behind a block whose first 56 bytes
-- are final, and the block is compressed.
unfoldable pub close : Vars → ℕ → ℕ → List ℕ → Vars
close digest nblocks num block =
    let block' = write block 56 (putu32 (nblocks >>> 23)) in
    let block'' = write block' 60 (putu32 (u64 (u64 (nblocks <<< 9) + num <<< 3))) in
    compress digest block''

unfoldable pub finish : Ctx → List ℕ
finish ctx =
    let num = bit_and ctx.nbytes 0x3f in
    let digest = ctx.chain.digest in
    let marked = write ctx.block num (0x80 ∷ []) in
    let one = write marked (num + 1) (replicate (64 - num - 9) 0) in
    let full = write marked (num + 1) (replicate (64 - num - 1) 0) in
    let two = write full 0 (replicate (64 - 8) 0) in
    if leb num (64 - 9)
    then digest_bytes (close digest ctx.chain.nblocks num one)
    else digest_bytes (close (compress digest full) ctx.chain.nblocks num two)

-- Any number of calls of `sm3_update`.
unfoldable pub updates : Ctx → List (List ℕ) → Ctx
unfolding update
updates ctx [] = ctx
updates ctx (x ∷ xs) = updates (update ctx x) xs
