-- ===== src/Sm4/Authenticated/Ciphers.antt =====
-- What the MAC layer needs of a cipher's context, and that the modes of SM4 provide it.
use gm_ssl.Base.{ℕ, ◌≡◌, List, [], ◌++◌, joined}
use gm_ssl.Base.{true, Option, some}
use gm_ssl.Sm4.{set_encrypt_key, set_decrypt_key}
use gm_ssl.Sm4.Blocks.{
  Ctx, Reply, failed, needs, done, feed, collected, ended, run, updates, cbc_encrypt_step,
}
use gm_ssl.Sm4.Blocks.{counter_step, ctr_incr}
use gm_ssl.Sm4.Blocks.Streamed.{setup-Streamed}
use gm_ssl.Sm4.Cbc.{padding_encrypt, padding_decrypt}
use gm_ssl.Sm4.Cbc
use gm_ssl.Sm4.Cbc.Streaming
use gm_ssl.Sm4.Cbc.Decrypting
use gm_ssl.Sm4.Ctr.Laws
use gm_ssl.Sm4.Cbc.Streaming.{encrypt_all-padding_encrypt}
use gm_ssl.Sm4.Cbc.Decrypting.{delivered, decrypt_init-Fed, decrypt_all-padding_decrypt}
use gm_ssl.Sm4.Ctr.{ctr_encrypt}
use gm_ssl.Sm4.Ctr
use gm_ssl.Sm4.Ctr.Laws.{encrypt_parts-counter_encrypt}
use gm_ssl.Sm4.Authenticated.{Cipher, cbc_encryption, cbc_decryption, ctr_encryption}

-- The updates of a context that was set up succeed.
pub record Accepts (cipher : Cipher) (key iv : List ℕ) (xs : List (List ℕ)) : Type 0 where
  pub ctx : Ctx (List ℕ)
  pub written : List ℕ
  pub returns : feed (cipher.update true) (cipher.init key iv) xs [] ≡ done ctx written

-- No update fails, and the calls together do what `whole` does with the whole input, however it
-- is cut.
pub record Streams (cipher : Cipher) (whole : List ℕ → List ℕ → List ℕ → Option (List ℕ))
    : Type 0 where
  pub accepts : (key iv : List ℕ) (xs : List (List ℕ)) → Accepts cipher key iv xs
  pub runs :
      (key iv : List ℕ) (xs : List (List ℕ))
      → run (cipher.update true) (cipher.finish true) (cipher.init key iv) xs
        ≡ whole key iv (joined xs)

-- What the one-shot functions deliver.
unfoldable pub cbc_sealed : List ℕ → List ℕ → List ℕ → Option (List ℕ)
cbc_sealed key iv m = some (padding_encrypt (set_encrypt_key key) iv m)

unfoldable pub cbc_opened : List ℕ → List ℕ → List ℕ → Option (List ℕ)
cbc_opened key iv c = delivered (padding_decrypt (set_decrypt_key key) iv c)

unfoldable pub ctr_masked : List ℕ → List ℕ → List ℕ → Option (List ℕ)
ctr_masked key iv m = some (ctr_encrypt (set_encrypt_key key) iv m).1

-- A run whose replies another definition has put together.
abbrev Returns : {A : Type 0} → Reply A → List ℕ → Type 0
Returns {A} r c = (ctx : A) × (r ≡ done ctx c)

collected_done :
    {A : Type 0} (written : List ℕ) (r : Reply A) (c : List ℕ)
    → Returns
        (elim r [ failed ↦ failed | needs n ↦ needs n | done ctx o ↦ done ctx (written ++ o) ])
        c
    → collected written r ≡ some c
unfolding collected
collected_done written failed c (ctx, e) = cc
collected_done written (needs n) c (ctx, e) = cc
collected_done written (done ctx' o) c (ctx, e) = cc

ended_done :
    {A : Type 0} (last : A → Reply A) (r : Reply A) (c : List ℕ)
    → Returns
        (elim r [
          | failed ↦ failed
          | needs n ↦ needs n
          | done ctx written ↦ elim (last ctx) [
            | failed ↦ failed
            | needs n ↦ needs n
            | done ctx' o ↦ done ctx' (written ++ o)
          ]
        ])
        c
    → ended last r ≡ some c
unfolding ended
ended_done last failed c (ctx, e) = cc
ended_done last (needs n) c (ctx, e) = cc
ended_done last (done ctx' written) c h = collected_done written (last ctx') c h

pub cbc_encryption-Streams : Streams cbc_encryption cbc_sealed
cbc_encryption-Streams = record {
  accepts = λ key iv xs.
      let s = setup-Streamed cbc_encrypt_step (set_encrypt_key key) iv xs in
      unfold Cbc.encrypt_init Cbc.encrypt_update updates in
      record { ctx = _; written = s.written; returns = s.returns };
  runs = λ key iv xs.
      unfold run cbc_sealed Streaming.encrypt_all Cbc.encrypt_update updates in
      ended_done (Cbc.encrypt_finish true)
        (feed (cbc_encryption.update true) (cbc_encryption.init key iv) xs [])
        (padding_encrypt (set_encrypt_key key) iv (joined xs))
        (encrypt_all-padding_encrypt key iv xs);
}

pub ctr_encryption-Streams : Streams ctr_encryption ctr_masked
ctr_encryption-Streams = record {
  accepts = λ key iv xs.
      let s = setup-Streamed (counter_step ctr_incr) (set_encrypt_key key) iv xs in
      unfold Ctr.counter_init Ctr.counter_update updates in
      record { ctx = _; written = s.written; returns = s.returns };
  runs = λ key iv xs.
      unfold run ctr_masked Laws.encrypt_parts Ctr.counter_update updates in
      ended_done (Ctr.ctr_encrypt_finish true)
        (feed (ctr_encryption.update true) (ctr_encryption.init key iv) xs [])
        (ctr_encrypt (set_encrypt_key key) iv (joined xs)).1
        (encrypt_parts-counter_encrypt ctr_incr key iv xs);
}

pub cbc_decryption-Streams : Streams cbc_decryption cbc_opened
cbc_decryption-Streams = record {
  accepts = λ key iv xs.
      let f = decrypt_init-Fed key iv xs in
      record { ctx = _; written = f.written; returns = f.returns };
  runs = λ key iv xs.
      unfold cbc_opened Decrypting.decrypt_all in decrypt_all-padding_decrypt key iv xs;
}
