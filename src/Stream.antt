-- ===== src/Stream.antt =====
-- The buffering that the update functions share: sm4_ctr_encrypt_update, sm4_cbc_encrypt_update,
-- sm4_ecb_encrypt_update and sm3_update gather bytes in a block, hand full
-- blocks to the mode's loop, and keep the rest.
pub mod Loop
pub mod Kept
pub mod Holds
pub mod Back
mod Tests
use gm_ssl.Base.{ℕ, zero, suc, ◌+◌, ◌-◌, ◌*◌, ◌/◌, List, [], ◌∷◌, ◌++◌, length, take, drop}
use gm_ssl.Base.{Bool, true, false, ltb, leb, ◌==◌, if◌then◌else◌}
use gm_ssl.Mem.{write}

-- The chaining value (`iv`, `ctr`, `digest`), the block and how many of its bytes are taken.
pub record Buffer (S : Type 0) : Type 0 where
  pub chain : S
  pub block : List ℕ
  pub nbytes : ℕ

module _ {S : Type 0} (size : ℕ) (step : S → List ℕ → S × List ℕ) where
  -- A `*_blocks` loop, `while (nblocks--)`: the chaining value after it, and what it wrote.
  unfoldable pub iterate : S → ℕ → List ℕ → S × List ℕ
  iterate c zero input = (c, [])
  iterate c (suc n) input =
      let (c', o) = step c (take size input) in
      let (c'', o') = iterate c' n (drop size input) in (c'', o ++ o')

  -- `memcpy(ctx->block, in, inlen); ctx->block_nbytes = inlen;`
  unfoldable pub keep : Buffer S → List ℕ → Buffer S
  keep b input = record b { block = write b.block 0 input; nbytes = length input }

  -- The whole blocks of the input, and then the rest; `out` was written before.
  unfoldable pub bulk : Buffer S → List ℕ → List ℕ → Buffer S × List ℕ
  unfolding iterate keep
  bulk b out input =
      let nblocks = length input / size in
      let (c', o) = iterate b.chain nblocks input in
      if leb size (length input)
      then (keep (record b { chain = c' }) (drop (nblocks * size) input), out ++ o)
      else (keep b input, out)

  -- A started block, once the input fills it.
  unfoldable pub complete : Buffer S → List ℕ → List ℕ → Buffer S × List ℕ
  unfolding iterate bulk
  complete b filling rest =
      let block = write b.block b.nbytes filling in
      let (c', o) = iterate b.chain 1 block in bulk (record b { chain = c'; block = block }) o rest

  -- The body of an update, behind its checks.
  unfoldable pub absorb : Buffer S → List ℕ → Buffer S × List ℕ
  unfolding bulk complete
  absorb b input =
      let left = size - b.nbytes in
      if b.nbytes == 0
      then bulk b [] input
      else (if ltb (length input) left
          then (
            record b { block = write b.block b.nbytes input; nbytes = b.nbytes + length input },
            [],
          )
          else complete b (take left input) (drop left input))

  -- The same three for sm4_cbc_decrypt_update, which keeps the last block back although it is full:
  -- it may be the one that ends in the padding.
  unfoldable pub bulk_back : Buffer S → List ℕ → List ℕ → Buffer S × List ℕ
  unfolding iterate keep
  bulk_back b out input =
      let nblocks = (length input - 1) / size in
      let (c', o) = iterate b.chain nblocks input in
      if ltb size (length input)
      then (keep (record b { chain = c' }) (drop (nblocks * size) input), out ++ o)
      else (keep b input, out)

  unfoldable pub complete_back : Buffer S → List ℕ → List ℕ → Buffer S × List ℕ
  unfolding iterate bulk_back
  complete_back b filling rest =
      let block = write b.block b.nbytes filling in
      let (c', o) = iterate b.chain 1 block in
      bulk_back (record b { chain = c'; block = block }) o rest

  unfoldable pub absorb_back : Buffer S → List ℕ → Buffer S × List ℕ
  unfolding bulk_back complete_back
  absorb_back b input =
      let left = size - b.nbytes in
      if b.nbytes == 0
      then bulk_back b [] input
      else (if leb (length input) left
          then (
            record b { block = write b.block b.nbytes input; nbytes = b.nbytes + length input },
            [],
          )
          else complete_back b (take left input) (drop left input))
