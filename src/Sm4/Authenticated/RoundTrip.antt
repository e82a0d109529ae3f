-- ===== src/Sm4/Authenticated/RoundTrip.antt =====
-- The decryption accepts exactly what has the right tag, and undoes the encryption.
use gm_ssl.Base.{ℕ, ◌+◌, ◌-◌, ◌^◌, ◌<◌, arith, ◌≡◌, refl, sym, ap, ap₂, ◌∙◌, List, [], ◌∷◌, ◌++◌}
use gm_ssl.Base.{joined, take, drop, length, Bool, true, false, Option, none, some}
use gm_ssl.Base.{ltb, ◌==◌, ◌&&◌, if◌then◌else◌, length-drop, length-append}
use gm_ssl.Base.{take-append_eq, drop-append_eq, take-append-drop}
use gm_ssl.Base.{Bool-cases, inl, inr, ltb→le, le→ltb, ==→eq, eq→==}
use gm_ssl.Sm3.Hmac.Laws.{length-hmac}
use gm_ssl.Sm4.Blocks.{run}
use gm_ssl.Sm4.Authenticated.{Cipher}
use gm_ssl.Sm4.Authenticated.{decrypt_all, called, memcmp_is_zero}
use gm_ssl.Sm4.Authenticated.Calls.{
  ctr_hmac_encrypt_init, ctr_hmac_encrypt_update, ctr_hmac_encrypt_finish, ctr_hmac_decrypt_init,
  ctr_hmac_decrypt_update, ctr_hmac_decrypt_finish,
}
use gm_ssl.Sm4.Authenticated.Ciphers.{Streams}
use gm_ssl.Sm4.Authenticated.Sealing.{mac_key, tag}
use gm_ssl.Base.{◌↔◌}
use gm_ssl.Base.{All, IsByte}
use gm_ssl.Sm4.Inverse.{IsBlock}
use gm_ssl.Sm4.{set_encrypt_key, set_decrypt_key}
use gm_ssl.Sm4.Cbc.{padding_encrypt, padding_decrypt}
use gm_ssl.Sm4.Cbc.Laws.{padding_decrypt-encrypt}
use gm_ssl.Sm4.Ctr.{ctr_encrypt}
use gm_ssl.Sm4.Ctr.Laws.{counter_encrypt-counter_encrypt}
use gm_ssl.Sm4.Authenticated.{cbc_encryption, cbc_decryption, ctr_encryption, encrypt_all}
use gm_ssl.Sm4.Authenticated.Ciphers.{cbc_sealed, cbc_opened, ctr_masked}
use gm_ssl.Sm4.Authenticated.Ciphers.{
  cbc_encryption-Streams, cbc_decryption-Streams, ctr_encryption-Streams,
}
use gm_ssl.Sm4.Authenticated.Sealing.{encrypt_all-tag}
use gm_ssl.Sm4.Authenticated.Held.{IsClear, first}
use gm_ssl.Sm4.Authenticated.Opening.{open_tagged, decrypt_all-open_tagged}
use gm_ssl.Sm4.Cbc.Decrypting.{delivered}
use gm_ssl.Sm4.Blocks.{ctr_incr}

-- Two MACs compare as equal exactly where they are.
memcmp_is_zero_self : (a : List ℕ) → memcmp_is_zero a a ≡ true
unfolding memcmp_is_zero
memcmp_is_zero_self [] = refl
memcmp_is_zero_self (a ∷ as') = rw (eq→== a a refl) (memcmp_is_zero_self as')

memcmp_is_zero-eq : (a b : List ℕ) → length a ≡ length b → memcmp_is_zero a b ≡ true → a ≡ b
unfolding memcmp_is_zero
memcmp_is_zero-eq [] [] e h = refl
memcmp_is_zero-eq [] (b ∷ bs) e h = absurd (omega arith)
memcmp_is_zero-eq (a ∷ as') [] e h = absurd (omega arith)
memcmp_is_zero-eq (a ∷ as') (b ∷ bs) e h = elim (Bool-cases (a == b)) [
  | inl same ↦
      ap₂ (λ x xs. x ∷ xs) (==→eq a b same)
        (memcmp_is_zero-eq as' bs (omega arith)
          (sym (ap (λ t. t && memcmp_is_zero as' bs) same) ∙ h))
  | inr not ↦ let f : false ≡ true = sym (ap (λ t. t && memcmp_is_zero as' bs) not) ∙ h in cc
]

chosen :
    (b : Bool) (x : Option (List ℕ)) (p : List ℕ)
    → (if b then x else none) ≡ some p
    → (b ≡ true) × (x ≡ some p)
chosen true x p e = (refl, e)
chosen false x p e = cc

passed_by :
    (b : Bool) (x : Option (List ℕ)) (p : List ℕ)
    → (if b then none else x) ≡ some p
    → (b ≡ false) × (x ≡ some p)
passed_by true x p e = cc
passed_by false x p e = (refl, e)

module _ (whole : List ℕ → List ℕ → List ℕ → Option (List ℕ)) (key iv aad : List ℕ) where
  -- A ciphertext that the cipher opens to `p`, and the tag on it.
  abbrev pub Tagged : List ℕ → List ℕ → Type 0
  Tagged m p = (c : List ℕ) × (m ≡ c ++ tag key aad c) × (whole (take 16 key) iv c ≡ some p)

  length-tag : (c : List ℕ) → length (tag key aad c) ≡ 32
  length-tag c = length-hmac (mac_key key) (aad ++ c)

  open_tagged-Tagged : (m p : List ℕ) → open_tagged whole key iv aad m ≡ some p → Tagged m p
  unfolding open_tagged
  open_tagged-Tagged m p e =
      let n = length m - 32 in
      let (long, e') = passed_by (ltb (length m) 32) _ p e in
      let (same, opens) = chosen (memcmp_is_zero (tag key aad (take n m)) (drop n m)) _ p e' in
      let equal =
        memcmp_is_zero-eq (tag key aad (take n m)) (drop n m)
          (omega (arith, length-tag (take n m), length-drop n m, ltb→le _ _ long)) same in
      (take n m, sym (take-append-drop n m) ∙ ap (λ s. take n m ++ s) (sym equal), opens)

  Tagged-open_tagged : (m p : List ℕ) → Tagged m p → open_tagged whole key iv aad m ≡ some p
  unfolding open_tagged
  Tagged-open_tagged m p (c, split, opens) =
      let n : length m ≡ length c + 32 =
        omega (arith, ap length split, length-append c (tag key aad c), length-tag c) in
      let front : take (length m - 32) m ≡ c =
        ap (λ s. take (length m - 32) s) split
        ∙ take-append_eq (length m - 32) c (tag key aad c) (omega arith) in
      let back : drop (length m - 32) m ≡ tag key aad c =
        ap (λ s. drop (length m - 32) s) split
        ∙ drop-append_eq (length m - 32) c (tag key aad c) (omega arith) in
      rw (le→ltb (length m) 32 (omega arith), front, back, memcmp_is_zero_self (tag key aad c))
        opens

-- For a cipher that streams, data of which the MAC can take the length, and a caller that sets
-- `*outlen` to 0 ahead of every update or has more than 32 bytes in the first: however a message is
-- cut into calls, the decryption delivers `p` exactly where the message is a ciphertext that the cipher
-- opens to `p`, with the tag on the additional data and it behind it.
pub decrypt_all-Tagged :
    (cipher : Cipher) (whole : List ℕ → List ℕ → List ℕ → Option (List ℕ))
    → Streams cipher whole
    → (outlen : ℕ) (out key iv aad : List ℕ) (xs : List (List ℕ)) (p : List ℕ)
    → length aad + length (joined xs) + 64 < 2 ^ 61
    → IsClear outlen (first xs)
    → (decrypt_all cipher outlen out key iv aad xs ≡ some p) ↔ Tagged whole key iv aad (joined xs) p
decrypt_all-Tagged cipher whole streams outlen out key iv aad xs p bound clear =
    let e = decrypt_all-open_tagged cipher whole streams outlen out key iv aad xs bound clear in
    (
      λ h. open_tagged-Tagged whole key iv aad (joined xs) p (sym e ∙ h),
      λ t. e ∙ Tagged-open_tagged whole key iv aad (joined xs) p t,
    )

-- What two ciphers that undo each other make of one message.
round_trip :
    (sealer opener : Cipher) (seal open_ : List ℕ → List ℕ → List ℕ → Option (List ℕ))
    → Streams sealer seal
    → Streams opener open_
    → (outlen : ℕ) (out key iv aad : List ℕ) (xs ys : List (List ℕ)) (c : List ℕ)
    → seal (take 16 key) iv (joined xs) ≡ some c
    → open_ (take 16 key) iv c ≡ some (joined xs)
    → joined ys ≡ c ++ tag key aad c
    → length aad + length (joined ys) + 64 < 2 ^ 61
    → IsClear outlen (first ys)
    → (encrypt_all sealer key iv aad xs ≡ some (joined ys))
      × (decrypt_all opener outlen out key iv aad ys ≡ some (joined xs))
round_trip sealer opener seal open_ s o outlen out key iv aad xs ys c sealed opened split bound
      clear =
    (
      encrypt_all-tag sealer seal s key iv aad xs c sealed
            (omega (arith, ap length split, length-append c (tag key aad c)))
          ∙ ap some (sym split),
      (decrypt_all-Tagged opener open_ o outlen out key iv aad ys (joined xs) bound clear).1
          (c, split, opened),
    )

-- For every key, every iv that is a block, additional data and a message of bytes, with a result of
-- fewer than 2 ^ 61 - 64 bytes together with the additional data, and every way to cut the message
-- and the result into calls: the calls of `sm4_cbc_sm3_hmac_encrypt_` write the
-- ciphertext with its tag, and the calls of `sm4_cbc_sm3_hmac_decrypt_` on that give the message
-- back, if their caller sets `*outlen` to 0 ahead of every update or has more than 32 bytes in the
-- first one.
pub cbc_round_trip :
    (outlen : ℕ) (out key iv aad : List ℕ) (xs ys : List (List ℕ)) (c : List ℕ)
    → IsBlock iv
    → All IsByte (joined xs)
    → c ≡ padding_encrypt (set_encrypt_key (take 16 key)) iv (joined xs)
    → joined ys ≡ c ++ tag key aad c
    → length aad + length (joined ys) + 64 < 2 ^ 61
    → IsClear outlen (first ys)
    → (encrypt_all cbc_encryption key iv aad xs ≡ some (joined ys))
      × (decrypt_all cbc_decryption outlen out key iv aad ys ≡ some (joined xs))
cbc_round_trip outlen out key iv aad xs ys c hi hx e split bound clear =
    round_trip cbc_encryption cbc_decryption cbc_sealed cbc_opened cbc_encryption-Streams
      cbc_decryption-Streams outlen out key iv aad xs ys c (unfold cbc_sealed in ap some (sym e))
      (unfold cbc_opened delivered in
        ap (λ t. delivered (padding_decrypt (set_decrypt_key (take 16 key)) iv t)) e
        ∙ ap delivered (padding_decrypt-encrypt (joined xs) hx (take 16 key) iv hi))
      split bound clear

-- For every key, iv, additional data and message, with a result of fewer than 2 ^ 61 - 64 bytes
-- together with the additional data, and every way to cut the message and the result into calls: the
-- calls of `sm4_ctr_sm3_hmac_encrypt_` write the ciphertext with its tag, and the
-- calls of `sm4_ctr_sm3_hmac_decrypt_` on that give the message back, if their caller sets `*outlen`
-- to 0 ahead of every update or has more than 32 bytes in the first one.
pub ctr_round_trip :
    (outlen : ℕ) (out key iv aad : List ℕ) (xs ys : List (List ℕ)) (c : List ℕ)
    → c ≡ (ctr_encrypt (set_encrypt_key (take 16 key)) iv (joined xs)).1
    → joined ys ≡ c ++ tag key aad c
    → length aad + length (joined ys) + 64 < 2 ^ 61
    → IsClear outlen (first ys)
    → (run ctr_hmac_encrypt_update ctr_hmac_encrypt_finish (ctr_hmac_encrypt_init key iv aad) xs
        ≡ some (joined ys))
      × (run
            (called ctr_hmac_decrypt_update outlen out)
            ctr_hmac_decrypt_finish
            (ctr_hmac_decrypt_init key iv aad)
            ys
          ≡ some (joined xs))
unfolding encrypt_all decrypt_all
ctr_round_trip outlen out key iv aad xs ys c e split bound clear =
    round_trip ctr_encryption ctr_encryption ctr_masked ctr_masked ctr_encryption-Streams
      ctr_encryption-Streams outlen out key iv aad xs ys c (unfold ctr_masked in ap some (sym e))
      (unfold ctr_masked in
        ap (λ t. some (ctr_encrypt (set_encrypt_key (take 16 key)) iv t).1) e
        ∙ ap some (
            counter_encrypt-counter_encrypt ctr_incr (set_encrypt_key (take 16 key)) iv
              (joined xs)))
      split bound clear
