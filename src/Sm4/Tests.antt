-- ===== src/Sm4/Tests.antt =====
-- Known answers, and the theorems at concrete inputs.
use gm_ssl.Base.{ℕ, List, [], ◌∷◌, ◌++◌, ◌≡◌, refl, arith}
use gm_ssl.Endian.{getu32, putu32, rol32}
use gm_ssl.Sm4.{set_encrypt_key, set_decrypt_key, encrypt}
use gm_ssl.Sm4.{
  key_state, expand_up, next_round_key, shift_in, l32, l32', s32, load, store, round, rounds,
}
use gm_ssl.Sm4.Tables.{s_box}
use gm_ssl.Sm4.Inverse.{IsBlock, decrypt-encrypt}
use gm_ssl.Sm4.Blocks.{Ctx, done, setup, updates, cbc_encrypt_step}
use gm_ssl.Sm4.Blocks.Streamed.{Streamed, setup-Streamed}
use gm_ssl.Base.{joined}
use gm_ssl.Sm4.Cbc.{plain, padding_encrypt, padding_decrypt}
use gm_ssl.Sm4.Cbc.Laws.{padding_decrypt-encrypt}
use gm_ssl.Sm4.Cbc.Streaming.{encrypt_all, encrypt_all-padding_encrypt}
use gm_ssl.Sm4.Cbc.Decrypting.{decrypt_all, delivered, decrypt_all-padding_decrypt}
use gm_ssl.Sm4.Blocks.{ctr_incr}
use gm_ssl.Sm4.Ctr.{ctr_encrypt}
use gm_ssl.Sm4.Ctr.Laws.{encrypt_parts, encrypt_parts-counter_encrypt}
use gm_ssl.Sm4.Blocks.{failed}
use gm_ssl.Sm4.Ofb.{ofb_encrypt}
use gm_ssl.Sm4.Ofb.Streaming
use gm_ssl.Sm4.Ofb.Streaming.{encrypt_parts-ofb_encrypt}
use gm_ssl.Sm4.Ecb.{encrypt_blocks}
use gm_ssl.Sm4.Ecb.Laws.{encrypt_cut, encrypt_cut-failed, encrypt_cut-encrypt_cut}
use gm_ssl.Base.{append-nil}

-- The key and the block of the standard's example.
abbrev sample : List ℕ
sample =
    0x01 ∷ 0x23 ∷ 0x45 ∷ 0x67 ∷ 0x89 ∷ 0xab ∷ 0xcd ∷ 0xef ∷ 0xfe ∷ 0xdc ∷ 0xba ∷ 0x98 ∷ 0x76 ∷ 0x54
    ∷ 0x32 ∷ 0x10 ∷ []

sample-IsBlock : IsBlock sample
sample-IsBlock = record { size = refl; bytes = omega arith }

-- The ciphertext that the standard prints.
sample_encrypted :
    encrypt (set_encrypt_key sample) sample
    ≡ 0x68 ∷ 0x1e ∷ 0xdf ∷ 0x34 ∷ 0xd2 ∷ 0x06 ∷ 0x96 ∷ 0x5e ∷ 0x86 ∷ 0xb3 ∷ 0xe9 ∷ 0x4f ∷ 0x53
      ∷ 0x6e ∷ 0x42 ∷ 0x46 ∷ []
unfolding encrypt set_encrypt_key getu32 putu32 rol32 key_state expand_up next_round_key shift_in
    l32 l32' s32 load store round rounds s_box
sample_encrypted = refl

decrypt-encrypt_example :
    encrypt (set_decrypt_key sample) (encrypt (set_encrypt_key sample) sample) ≡ sample
decrypt-encrypt_example = decrypt-encrypt sample sample sample-IsBlock

-- Nineteen bytes, and the same in three parts.
abbrev message : List ℕ
message = sample ++ (1 ∷ 2 ∷ 3 ∷ [])

abbrev parts : List (List ℕ)
parts = (0x01 ∷ 0x23 ∷ 0x45 ∷ []) ∷ [] ∷ (sample ++ (1 ∷ 2 ∷ 3 ∷ [])) ∷ []

setup-Streamed_example :
    Streamed cbc_encrypt_step
      (set_encrypt_key sample)
      sample
      (joined parts)
      (updates cbc_encrypt_step (setup (set_encrypt_key sample) sample) parts [])
setup-Streamed_example = setup-Streamed cbc_encrypt_step (set_encrypt_key sample) sample parts

padding_decrypt-encrypt_example :
    padding_decrypt
      (set_decrypt_key sample)
      sample
      (padding_encrypt (set_encrypt_key sample) sample message)
    ≡ plain message
padding_decrypt-encrypt_example =
    padding_decrypt-encrypt message (omega arith) sample sample sample-IsBlock

encrypt_all-padding_encrypt_example :
    (ctx : Ctx (List ℕ)) × (encrypt_all sample sample parts
      ≡ done ctx (padding_encrypt (set_encrypt_key sample) sample (joined parts)))
encrypt_all-padding_encrypt_example = encrypt_all-padding_encrypt sample sample parts

encrypt_parts-counter_encrypt_example :
    (ctx : Ctx (List ℕ)) × (encrypt_parts ctr_incr sample sample parts
      ≡ done ctx (ctr_encrypt (set_encrypt_key sample) sample (joined parts)).1)
encrypt_parts-counter_encrypt_example = encrypt_parts-counter_encrypt ctr_incr sample sample parts

encrypt_cut-failed_example : encrypt_cut (set_encrypt_key sample) parts ≡ failed
encrypt_cut-failed_example = encrypt_cut-failed (set_encrypt_key sample) parts (omega arith)

abbrev sealed : List ℕ
sealed = encrypt_blocks (set_encrypt_key sample) 1 (sample ++ [])

encrypt_cut-encrypt_cut_example :
    ((ctx : Ctx (Unit {0})) × (encrypt_cut (set_encrypt_key sample) (sample ∷ [])
        ≡ done ctx (sealed ++ [])))
    × ((ctx : Ctx (Unit {0})) × (encrypt_cut (set_decrypt_key sample) (sealed ∷ [])
          ≡ done ctx (sample ++ [])))
encrypt_cut-encrypt_cut_example =
    encrypt_cut-encrypt_cut sample (sample ∷ []) (sealed ∷ []) (omega arith) refl
      (append-nil sealed)

decrypt_all-padding_decrypt_example :
    decrypt_all sample sample parts
    ≡ delivered (padding_decrypt (set_decrypt_key sample) sample (joined parts))
decrypt_all-padding_decrypt_example = decrypt_all-padding_decrypt sample sample parts

encrypt_parts-ofb_encrypt_example :
    (ctx : Ctx (List ℕ)) × (Streaming.encrypt_parts sample sample parts
      ≡ done ctx (ofb_encrypt (set_encrypt_key sample) sample (joined parts)).1)
encrypt_parts-ofb_encrypt_example = encrypt_parts-ofb_encrypt sample sample parts
