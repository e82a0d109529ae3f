-- ===== src/Sm4/Ctr.antt =====
-- src/sm4_ctr.c: the one-shot functions and the streaming contexts of the two counter modes. What
-- the pairs of functions do alike is written once, over the increment.
pub mod Laws
use gm_ssl.Base.{ℕ, ◌+◌, ◌-◌, ◌*◌, ◌/◌, ◌%◌, List, [], ◌∷◌, ◌++◌, take, drop, length}
use gm_ssl.Base.{replicate, Bool, true, false, leb, ◌==◌, if◌then◌else◌}
use gm_ssl.Stream.{iterate}
use gm_ssl.Sm4.{set_encrypt_key}
use gm_ssl.Sm4.Blocks.{Ctx, Reply, failed, needs, done, setup, update, counter_step, ctr_incr}
use gm_ssl.Sm4.Blocks.{ctr32_incr}

module _ (incr : List ℕ → List ℕ) where
  -- The counter after the loop, and the output.
  unfoldable pub counter_blocks : List ℕ → List ℕ → ℕ → List ℕ → List ℕ × List ℕ
  counter_blocks key ctr nblocks input = iterate 16 (counter_step incr key) ctr nblocks input

  -- The bytes behind the whole blocks are masked in a block of zeros.
  unfoldable pub counter_encrypt : List ℕ → List ℕ → List ℕ → List ℕ × List ℕ
  counter_encrypt key ctr input =
      let nblocks = length input / 16 in
      let rest = drop (nblocks * 16) input in
      let (ctr', o) = counter_blocks key ctr nblocks input in
      let (ctr'', block) = counter_blocks key ctr' 1 (rest ++ replicate (16 - length rest) 0) in
      if length rest == 0 then (ctr', o) else (ctr'', o ++ take (length rest) block)

  unfoldable pub counter_init : List ℕ → List ℕ → Ctx (List ℕ)
  counter_init key ctr = setup (set_encrypt_key key) ctr

  unfoldable pub counter_update : Bool → Ctx (List ℕ) → List ℕ → Reply (Ctx (List ℕ))
  counter_update = update (counter_step incr)

  -- The whole block is masked, and as many bytes of it are written as were taken in.
  unfoldable pub counter_finish : Bool → Ctx (List ℕ) → Reply (Ctx (List ℕ))
  counter_finish out ctx =
      let b = ctx.buffer in
      let (ctr', block') = counter_blocks ctx.sm4_key b.chain 1 b.block in
      if out
      then (if leb 16 b.nbytes
          then failed
          else done (record ctx { buffer = record b { chain = ctr'; block = block' } })
              (take b.nbytes block'))
      else needs 16

abbrev pub ctr_encrypt_blocks : List ℕ → List ℕ → ℕ → List ℕ → List ℕ × List ℕ
ctr_encrypt_blocks = counter_blocks ctr_incr

abbrev pub ctr32_encrypt_blocks : List ℕ → List ℕ → ℕ → List ℕ → List ℕ × List ℕ
ctr32_encrypt_blocks = counter_blocks ctr32_incr

abbrev pub ctr_encrypt : List ℕ → List ℕ → List ℕ → List ℕ × List ℕ
ctr_encrypt = counter_encrypt ctr_incr

abbrev pub ctr32_encrypt : List ℕ → List ℕ → List ℕ → List ℕ × List ℕ
ctr32_encrypt = counter_encrypt ctr32_incr

abbrev pub ctr_encrypt_init : List ℕ → List ℕ → Ctx (List ℕ)
ctr_encrypt_init = counter_init ctr_incr

abbrev pub ctr_encrypt_update : Bool → Ctx (List ℕ) → List ℕ → Reply (Ctx (List ℕ))
ctr_encrypt_update = counter_update ctr_incr

abbrev pub ctr_encrypt_finish : Bool → Ctx (List ℕ) → Reply (Ctx (List ℕ))
ctr_encrypt_finish = counter_finish ctr_incr

abbrev pub ctr32_encrypt_init : List ℕ → List ℕ → Ctx (List ℕ)
ctr32_encrypt_init = counter_init ctr32_incr

abbrev pub ctr32_encrypt_update : Bool → Ctx (List ℕ) → List ℕ → Reply (Ctx (List ℕ))
ctr32_encrypt_update = counter_update ctr32_incr

abbrev pub ctr32_encrypt_finish : Bool → Ctx (List ℕ) → Reply (Ctx (List ℕ))
ctr32_encrypt_finish = counter_finish ctr32_incr
