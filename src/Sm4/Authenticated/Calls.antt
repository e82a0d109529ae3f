-- ===== src/Sm4/Authenticated/Calls.antt =====
-- The functions of src/sm4_ctr_sm3_hmac.c under their names: both directions run the counter mode.
use gm_ssl.Base.{ℕ, List}
use gm_ssl.Sm4.Blocks.{Reply}
use gm_ssl.Sm4.Authenticated.{AuthCtx, Opened, ctr_encryption, init, encrypt_update, encrypt_finish}
use gm_ssl.Sm4.Authenticated.{decrypt_update, decrypt_finish}

abbrev pub ctr_hmac_encrypt_init : List ℕ → List ℕ → List ℕ → AuthCtx
ctr_hmac_encrypt_init = init ctr_encryption

abbrev pub ctr_hmac_encrypt_update : AuthCtx → List ℕ → Reply AuthCtx
ctr_hmac_encrypt_update = encrypt_update ctr_encryption

abbrev pub ctr_hmac_encrypt_finish : AuthCtx → Reply AuthCtx
ctr_hmac_encrypt_finish = encrypt_finish ctr_encryption

abbrev pub ctr_hmac_decrypt_init : List ℕ → List ℕ → List ℕ → AuthCtx
ctr_hmac_decrypt_init = init ctr_encryption

abbrev pub ctr_hmac_decrypt_update : AuthCtx → List ℕ → Opened
ctr_hmac_decrypt_update = decrypt_update ctr_encryption

abbrev pub ctr_hmac_decrypt_finish : AuthCtx → Reply AuthCtx
ctr_hmac_decrypt_finish = decrypt_finish ctr_encryption
