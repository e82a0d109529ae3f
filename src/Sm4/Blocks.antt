-- ===== src/Sm4/Blocks.antt =====
-- The multi-block loops of src/sm4.c, one step for each mode of operation, the contexts of the
-- modes, and the update that the modes share.
pub mod Streamed
pub mod Feed
use gm_ssl.Base.{Option, none, some}
use gm_ssl.Base.{
  ℕ, zero, suc, ◌+◌, ◌-◌, ◌*◌, ◌/◌, ◌%◌, ◌^◌, List, [], ◌∷◌, ◌++◌, get_or, take, drop,
}
use gm_ssl.Base.{length, replicate, Bool, true, false, leb, ◌==◌, if◌then◌else◌, u8}
use gm_ssl.Mem.{memxor, write}
use gm_ssl.Stream.{Buffer, iterate, absorb}
use gm_ssl.Sm4.{encrypt}

-- One round of `sm4_encrypt_blocks`; ECB chains nothing.
unfoldable pub ecb_step : List ℕ → Unit {0} → List ℕ → Unit {0} × List ℕ
ecb_step key c block = (c, encrypt key block)

-- One round of `sm4_cbc_encrypt_blocks`.
unfoldable pub cbc_encrypt_step : List ℕ → List ℕ → List ℕ → List ℕ × List ℕ
cbc_encrypt_step key iv block = let c = encrypt key (memxor block iv) in (c, c)

-- One round of `sm4_cbc_decrypt_blocks`.
unfoldable pub cbc_decrypt_step : List ℕ → List ℕ → List ℕ → List ℕ × List ℕ
cbc_decrypt_step key iv block = (block, memxor (encrypt key block) iv)

-- The loops of `ctr_incr` and `ctr32_incr`: `n` rounds from index `i` downwards.
unfoldable pub incr_loop : ℕ → ℕ → List ℕ → List ℕ
incr_loop zero i a = a
incr_loop (suc n) i a =
    let v = u8 (get_or a i 0 + 1) in
    let a' = write a i (v ∷ []) in let rest = incr_loop n (i - 1) a' in if v == 0 then rest else a'

unfoldable pub ctr_incr : List ℕ → List ℕ
ctr_incr a = incr_loop 16 15 a

unfoldable pub ctr32_incr : List ℕ → List ℕ
ctr32_incr a = incr_loop 4 15 a

-- One round of `sm4_ofb_encrypt` on a whole block.
unfoldable pub ofb_step : List ℕ → List ℕ → List ℕ → List ℕ × List ℕ
ofb_step key iv block = let c = encrypt key iv in (c, memxor block c)

-- One round of `sm4_ctr_encrypt_blocks` and of `sm4_ctr32_encrypt_blocks`, which differ in how
-- they count.
unfoldable pub counter_step : (List ℕ → List ℕ) → List ℕ → List ℕ → List ℕ → List ℕ × List ℕ
counter_step incr key ctr block = (incr ctr, memxor block (encrypt key ctr))

-- SM4_CBC_CTX, SM4_CTR_CTX and SM4_ECB_CTX.
pub record Ctx (S : Type 0) : Type 0 where
  pub sm4_key : List ℕ
  pub buffer : Buffer S

-- What an update or a finish returns: -1, the size that is asked for with no output buffer, or 1
-- with the new context and what was written.
pub data Reply (A : Type 0) : Type 0 where
  failed : Reply A
  needs : ℕ → Reply A
  done : A → List ℕ → Reply A

-- Any number of calls of an update, with what they wrote one after the other.
unfoldable pub feed : {A : Type 0} → (A → List ℕ → Reply A) → A → List (List ℕ) → List ℕ → Reply A
feed next ctx [] written = done ctx written
feed next ctx (x ∷ xs) written = elim (next ctx x) [
  | failed ↦ failed
  | needs n ↦ needs n
  | done ctx' o ↦ feed next ctx' xs (written ++ o)
]

-- What was written before, with what the finish writes; `none` where it fails.
unfoldable pub collected : {A : Type 0} → List ℕ → Reply A → Option (List ℕ)
collected written failed = none
collected written (needs n) = none
collected written (done ctx out) = some (written ++ out)

unfoldable pub ended : {A : Type 0} → (A → Reply A) → Reply A → Option (List ℕ)
ended last failed = none
ended last (needs n) = none
ended last (done ctx written) = collected written (last ctx)

-- All updates and then the finish.
unfoldable pub run :
    {A : Type 0} → (A → List ℕ → Reply A) → (A → Reply A) → A → List (List ℕ) → Option (List ℕ)
run next last ctx xs = ended last (feed next ctx xs [])

module _ {S : Type 0} where
  unfoldable pub setup : List ℕ → S → Ctx S
  setup key c = record {
    sm4_key = key;
    buffer = record { chain = c; block = replicate 16 0; nbytes = 0 };
  }

  module _ (step : List ℕ → S → List ℕ → S × List ℕ) where
    -- The update of every mode but CFB and CBC decryption; `out` tells if there is a buffer.
    unfoldable pub update : Bool → Ctx S → List ℕ → Reply (Ctx S)
    update out ctx input =
        let (buffer', o) = absorb 16 (step ctx.sm4_key) ctx.buffer input in
        if out
        then (if leb 16 ctx.buffer.nbytes then failed else done (record ctx { buffer = buffer' }) o)
        else needs (16 * ((length input + 15) / 16))

    unfoldable pub updates : Ctx S → List (List ℕ) → List ℕ → Reply (Ctx S)
    updates = feed (update true)
