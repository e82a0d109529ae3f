-- ===== src/Tls/Tests.antt =====
-- The theorems at concrete inputs.
use gm_ssl.Base.{ℕ, List, [], ◌∷◌, ◌++◌, ◌≡◌, refl, arith, some}
use gm_ssl.Sm3.Hmac.{HmacCtx, hmac_init}
use gm_ssl.Sm4.{set_encrypt_key, set_decrypt_key}
use gm_ssl.Sm4.Inverse.{IsBlock}
use gm_ssl.Tls.Cbc.{record_encrypt, record_decrypt}
use gm_ssl.Tls.Cbc.RoundTrip.{header_of, record_decrypt-encrypt}
use gm_ssl.Asn1.Sink.{Sink}
use gm_ssl.Tls.Codec.{}

-- A key, and a block that the random generator may deliver.
abbrev sample : List ℕ
sample = 1 ∷ 2 ∷ 3 ∷ 4 ∷ 5 ∷ 6 ∷ 7 ∷ 8 ∷ 9 ∷ 10 ∷ 11 ∷ 12 ∷ 13 ∷ 14 ∷ 15 ∷ 16 ∷ []

sample-IsBlock : IsBlock sample
sample-IsBlock = record { size = refl; bytes = omega arith }

abbrev seq_num : List ℕ
seq_num = 0 ∷ 0 ∷ 0 ∷ 0 ∷ 0 ∷ 0 ∷ 0 ∷ 5 ∷ []

abbrev mac_ctx : HmacCtx
mac_ctx = hmac_init sample

-- A handshake record of TLCP with three bytes.
abbrev fragment : List ℕ
fragment = 20 ∷ 0 ∷ 255 ∷ []

record_decrypt-encrypt_example :
    (c : List ℕ) × (record_encrypt mac_ctx
        (set_encrypt_key sample)
        seq_num
        (some sample)
        (header_of 22 1 1 3 ++ fragment)
      ≡ some c)
    × (record_decrypt mac_ctx (set_decrypt_key sample) seq_num c
        ≡ some (header_of 22 1 1 3 ++ fragment))
record_decrypt-encrypt_example =
    record_decrypt-encrypt sample seq_num mac_ctx 22 1 1 sample fragment sample-IsBlock
      (omega arith) (omega arith)

abbrev sink : Sink
sink = record { buf = some (1 ∷ []); len = 1 }
