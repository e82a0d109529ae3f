-- ===== src/Sm4/Authenticated/Tests.antt =====
-- Known answers, and the theorems at concrete inputs.
use gm_ssl.Base.{
  ℕ, ◌+◌, ◌^◌, ◌<◌, ◌↔◌, arith, ◌≡◌, refl, ap, List, [], ◌∷◌, ◌++◌, joined, length, take,
}
use gm_ssl.Base.{inl, inr, false, replicate, none, some, append-nil, length-append}
use gm_ssl.Sm4.{set_encrypt_key}
use gm_ssl.Sm4.Inverse.{IsBlock}
use gm_ssl.Sm4.Blocks.{feed, done, ctr_incr}
use gm_ssl.Sm4.Cbc.{padding_encrypt}
use gm_ssl.Sm4.Ctr.{ctr_encrypt}
use gm_ssl.Sm4.Shape.{padding_encrypt-IsByte, counter_encrypt-IsByte}
use gm_ssl.Sm3.Hmac.Laws.{length-hmac}
use gm_ssl.Mem.{write}
use gm_ssl.Sm4.Authenticated.{AuthCtx, cbc_encryption, cbc_decryption, init, decrypt_update}
use gm_ssl.Sm4.Authenticated.{encrypt_all, decrypt_all, called, received, memcmp_is_zero}
use gm_ssl.Sm4.Blocks.{run}
use gm_ssl.Sm4.Authenticated.Calls.{
  ctr_hmac_encrypt_init, ctr_hmac_encrypt_update, ctr_hmac_encrypt_finish, ctr_hmac_decrypt_init,
  ctr_hmac_decrypt_update, ctr_hmac_decrypt_finish,
}
use gm_ssl.Sm4.Authenticated.Ciphers.{cbc_sealed, cbc_opened}
use gm_ssl.Sm4.Authenticated.Ciphers.{cbc_encryption-Streams, cbc_decryption-Streams}
use gm_ssl.Sm4.Authenticated.Sealing.{mac_key, tag, encrypt_all-tag}
use gm_ssl.Sm4.Authenticated.Updating.{Updated}
use gm_ssl.Sm4.Authenticated.Opening.{open_tagged, decrypt_init-Updated, decrypt_all-open_tagged}
use gm_ssl.Sm4.Authenticated.RoundTrip.{Tagged, decrypt_all-Tagged, cbc_round_trip, ctr_round_trip}

memcmp_differs : memcmp_is_zero (1 ∷ 2 ∷ 3 ∷ []) (1 ∷ 2 ∷ 4 ∷ []) ≡ false
unfolding memcmp_is_zero
memcmp_differs = refl

abbrev key : List ℕ
key = replicate 16 1 ++ replicate 32 2

abbrev iv : List ℕ
iv = replicate 16 3

iv-IsBlock : IsBlock iv
iv-IsBlock = record { size = refl; bytes = omega arith }

abbrev aad : List ℕ
aad = 7 ∷ 8 ∷ []

-- Nineteen bytes in three parts.
abbrev parts : List (List ℕ)
parts = (4 ∷ 5 ∷ []) ∷ [] ∷ replicate 17 6 ∷ []

abbrev ciphertext : List ℕ
ciphertext = padding_encrypt (set_encrypt_key (take 16 key)) iv (joined parts)

abbrev masked : List ℕ
masked = (ctr_encrypt (set_encrypt_key (take 16 key)) iv (joined parts)).1

length-ciphertext : length ciphertext ≡ 32
length-ciphertext = (padding_encrypt-IsByte (set_encrypt_key (take 16 key)) iv (joined parts)).1

length-masked : length masked ≡ 19
length-masked =
    (counter_encrypt-IsByte ctr_incr (set_encrypt_key (take 16 key)) iv (joined parts)
      (omega arith)).1

-- A ciphertext and its tag, in two parts.
abbrev sent : List ℕ → List (List ℕ)
sent c = c ∷ tag key aad c ∷ []

-- In one part.
abbrev sent_whole : List ℕ → List (List ℕ)
sent_whole c = (c ++ tag key aad c) ∷ []

joined-sent_whole : (c : List ℕ) → joined (sent_whole c) ≡ c ++ tag key aad c
joined-sent_whole c = append-nil (c ++ tag key aad c)

length-sent_whole : (c : List ℕ) → length (c ++ tag key aad c) ≡ length c + 32
length-sent_whole c =
    omega (arith, length-append c (tag key aad c), length-hmac (mac_key key) (aad ++ c))

-- What the caller's variables held before.
abbrev old : List ℕ
old = replicate 16 9

joined-sent : (c : List ℕ) → joined (sent c) ≡ c ++ tag key aad c
joined-sent c = ap (λ t. c ++ t) (append-nil (tag key aad c))

sent-short : (c : List ℕ) → length c < 1000 → length aad + length (joined (sent c)) + 64 < 2 ^ 61
sent-short c h = omega (
  arith,
  ap length (joined-sent c),
  length-append c (tag key aad c),
  length-hmac (mac_key key) (aad ++ c),
)

encrypt_all-tag_example :
    encrypt_all cbc_encryption key iv aad parts ≡ some (ciphertext ++ tag key aad ciphertext)
encrypt_all-tag_example =
    encrypt_all-tag cbc_encryption cbc_sealed cbc_encryption-Streams key iv aad parts ciphertext
      (unfold cbc_sealed in refl) (omega (arith, length-ciphertext))

decrypt_init-Updated_example :
    Updated cbc_decryption key iv aad (joined parts) [] (
      feed (called (decrypt_update cbc_decryption) 0 old) (init cbc_decryption key iv aad) parts [])
decrypt_init-Updated_example =
    decrypt_init-Updated cbc_decryption cbc_opened cbc_decryption-Streams 0 old key iv aad parts
      (inl refl)

decrypt_all-Tagged_example :
    (decrypt_all cbc_decryption 16 old key iv aad (sent_whole ciphertext) ≡ some (joined parts))
    ↔ Tagged cbc_opened key iv aad (joined (sent_whole ciphertext)) (joined parts)
decrypt_all-Tagged_example =
    decrypt_all-Tagged cbc_decryption cbc_opened cbc_decryption-Streams 16 old key iv aad
      (sent_whole ciphertext) (joined parts)
      (omega (
        arith,
        ap length (joined-sent_whole ciphertext),
        length-sent_whole ciphertext,
        length-ciphertext,
      ))
      (inr (omega (arith, length-sent_whole ciphertext, length-ciphertext)))

cbc_round_trip_example :
    (encrypt_all cbc_encryption key iv aad parts ≡ some (joined (sent ciphertext)))
    × (decrypt_all cbc_decryption 0 old key iv aad (sent ciphertext) ≡ some (joined parts))
cbc_round_trip_example =
    cbc_round_trip 0 old key iv aad parts (sent ciphertext) ciphertext iv-IsBlock (omega arith) refl
      (joined-sent ciphertext) (sent-short ciphertext (omega (arith, length-ciphertext))) (inl refl)

ctr_round_trip_example :
    (run ctr_hmac_encrypt_update ctr_hmac_encrypt_finish (ctr_hmac_encrypt_init key iv aad) parts
      ≡ some (joined (sent_whole masked)))
    × (run
          (called ctr_hmac_decrypt_update 16 old)
          ctr_hmac_decrypt_finish
          (ctr_hmac_decrypt_init key iv aad)
          (sent_whole masked)
        ≡ some (joined parts))
ctr_round_trip_example =
    ctr_round_trip 16 old key iv aad parts (sent_whole masked) masked refl
      (joined-sent_whole masked)
      (omega (arith, ap length (joined-sent_whole masked), length-sent_whole masked, length-masked))
      (inr (omega (arith, length-sent_whole masked, length-masked)))

-- Fewer bytes than a tag are refused.
short_refused : decrypt_all cbc_decryption 0 old key iv aad parts ≡ none
unfolding open_tagged
short_refused =
    decrypt_all-open_tagged cbc_decryption cbc_opened cbc_decryption-Streams 0 old key iv aad parts
      (omega arith) (inl refl)

abbrev start : AuthCtx
start = init cbc_decryption key iv aad

-- A caller that does not set `*outlen` to 0 takes what it took before for the plaintext of two bytes.
old_taken :
    called (decrypt_update cbc_decryption) 16 old start (4 ∷ 5 ∷ [])
    ≡ done (record start { mac = write start.mac start.maclen (4 ∷ 5 ∷ []); maclen = 2 }) old
unfolding called received decrypt_update init
old_taken = refl
