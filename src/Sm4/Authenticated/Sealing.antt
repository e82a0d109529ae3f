-- ===== src/Sm4/Authenticated/Sealing.antt =====
-- What the encryption writes: the ciphertext, and the MAC over the additional data and it.
use gm_ssl.Base.{
  ℕ, ◌+◌, ◌^◌, ◌<◌, arith, ◌≡◌, refl, sym, subst, ap, ◌∙◌, List, [], ◌∷◌, ◌++◌, joined,
}
use gm_ssl.Base.{take, drop, length, true, Option, some, append-nil}
use gm_ssl.Base.{append_assoc, length-take, length-append, ltb, Bool-cases, inl, inr, ltb→le}
use gm_ssl.Sm3.Hmac.{HmacCtx, hmac_init, hmac_update, hmac_finish}
use gm_ssl.Sm3.Hmac.Fed.{Fed, hmac_init-Fed, hmac_update-Fed, hmac_finish-Fed}
use gm_ssl.Sm3.Hmac.Laws.{hmac}
use gm_ssl.Sm4.Blocks.{Ctx, Reply, done, feed, collected, ended, run}
use gm_ssl.Sm4.Authenticated.{Cipher, AuthCtx, init, encrypt_update, encrypt_finish, encrypt_all}
use gm_ssl.Sm4.Blocks.Feed.{done_injective, feed_cons, feed_step, collected_returns}
use gm_ssl.Sm4.Authenticated.Ciphers.{Streams}

-- The part of the key that the MAC takes.
abbrev pub mac_key : List ℕ → List ℕ
mac_key key = take 32 (drop 16 key)

length-mac_key : (key : List ℕ) → length (mac_key key) < 2 ^ 61
length-mac_key key = omega (arith, length-take 32 (drop 16 key))

-- The tag on a ciphertext.
abbrev pub tag : List ℕ → List ℕ → List ℕ → List ℕ
tag key aad c = hmac (mac_key key) (aad ++ c)

nothing_left : (xs : List ℕ) → length xs ≡ 0 → xs ≡ []
nothing_left [] h = refl
nothing_left (x ∷ xs) h = absurd (omega arith)

pub init-Fed :
    (cipher : Cipher) (key iv aad : List ℕ) → Fed (mac_key key) aad (init cipher key iv aad).mac_ctx
unfolding init
init-Fed cipher key iv aad = elim (Bool-cases (ltb 0 (length aad))) [
  | inl some_aad ↦
      rw some_aad (
        hmac_update-Fed (mac_key key) [] aad (hmac_init (mac_key key))
          (hmac_init-Fed (mac_key key)))
  | inr no_aad ↦
      rw (no_aad, nothing_left aad (omega (arith, ltb→le _ _ no_aad))) (hmac_init-Fed (mac_key key))
]

pub hmac_finish-tag :
    (key aad c : List ℕ) (ctx : HmacCtx)
    → length aad + length c + 64 < 2 ^ 61
    → Fed (mac_key key) (aad ++ c) ctx
    → hmac_finish ctx ≡ tag key aad c
hmac_finish-tag key aad c ctx h f =
    hmac_finish-Fed (mac_key key) (aad ++ c) ctx (length-mac_key key)
      (omega (arith, length-append aad c)) f

-- Where the cipher succeeds, so does the call around it.
encrypt_update_done :
    (cipher : Cipher) (ctx : AuthCtx) (x : List ℕ) (enc : Ctx (List ℕ)) (o : List ℕ)
    → cipher.update true ctx.enc_ctx x ≡ done enc o
    → encrypt_update cipher ctx x
      ≡ done (record ctx { enc_ctx = enc; mac_ctx = hmac_update ctx.mac_ctx o }) o
unfolding encrypt_update
encrypt_update_done cipher ctx x enc o e = rw (e, encrypt_update) refl

encrypt_finish_done :
    (cipher : Cipher) (ctx : AuthCtx) (enc : Ctx (List ℕ)) (o t : List ℕ)
    → cipher.finish true ctx.enc_ctx ≡ done enc o
    → hmac_finish (hmac_update ctx.mac_ctx o) ≡ t
    → encrypt_finish cipher ctx
      ≡ done (record ctx { enc_ctx = enc; mac_ctx = hmac_update ctx.mac_ctx o }) (o ++ t)
unfolding encrypt_finish
encrypt_finish_done cipher ctx enc o t e f = rw (e, encrypt_finish, f) refl

module _ (cipher : Cipher) (key aad : List ℕ) where
  -- The MAC follows what the cipher writes.
  record Sealed (ctx : AuthCtx) (enc_ctx : Ctx (List ℕ)) (written : List ℕ) (r : Reply AuthCtx)
      : Type 0 where
    mac_ctx : HmacCtx
    fed : Fed (mac_key key) (aad ++ written) mac_ctx
    returns : r ≡ done (record ctx { enc_ctx = enc_ctx; mac_ctx = mac_ctx }) written

  feed-Sealed :
      (ctx : AuthCtx) (xs : List (List ℕ)) (written : List ℕ) (enc' : Ctx (List ℕ)) (all : List ℕ)
      → Fed (mac_key key) (aad ++ written) ctx.mac_ctx
      → feed (cipher.update true) ctx.enc_ctx xs written ≡ done enc' all
      → Sealed ctx enc' all (feed (encrypt_update cipher) ctx xs written)
  unfolding feed
  feed-Sealed ctx [] written enc' all f e =
      let (p, q) = done_injective ctx.enc_ctx enc' written all e in
      record {
        mac_ctx = ctx.mac_ctx;
        fed = subst (λ w. Fed (mac_key key) (aad ++ w) ctx.mac_ctx) q f;
        returns = λ i. done (record ctx { enc_ctx = p i }) (q i);
      }
  feed-Sealed ctx (x ∷ xs) written enc' all f e =
      let (enc, o, s, r) = feed_cons (cipher.update true) ctx.enc_ctx x xs written enc' all e in
      let next = record ctx { enc_ctx = enc; mac_ctx = hmac_update ctx.mac_ctx o } in
      let rest =
        feed-Sealed next xs (written ++ o) enc' all
          (rw (← append_assoc aad written o)
            (hmac_update-Fed (mac_key key) (aad ++ written) o ctx.mac_ctx f))
          r in
      record {
        mac_ctx = rest.mac_ctx;
        fed = rest.fed;
        returns =
            feed_step (encrypt_update cipher) ctx next x xs written o
              (encrypt_update_done cipher ctx x enc o s)
            ∙ rest.returns;
      }

-- For a cipher that streams, and data of which the MAC can take the length: however the message is
-- cut into calls of the update, no call fails, and together with the finish they write what the
-- cipher makes of the whole message, and behind it HMAC-SM3 of the additional data and that
-- ciphertext, under the last 32 bytes of the key.
pub encrypt_all-tag :
    (cipher : Cipher) (whole : List ℕ → List ℕ → List ℕ → Option (List ℕ))
    → Streams cipher whole
    → (key iv aad : List ℕ) (xs : List (List ℕ)) (c : List ℕ)
    → whole (take 16 key) iv (joined xs) ≡ some c
    → length aad + length c + 64 < 2 ^ 61
    → encrypt_all cipher key iv aad xs ≡ some (c ++ tag key aad c)
unfolding encrypt_all run ended collected
encrypt_all-tag cipher whole streams key iv aad xs c e h =
    let accepted = streams.accepts (take 16 key) iv xs in
    let w = accepted.written in
    let sealed =
      feed-Sealed cipher key aad (init cipher key iv aad) xs [] accepted.ctx w
        (rw (append-nil aad) (init-Fed cipher key iv aad)) (unfold init in accepted.returns) in
    let ran : collected w (cipher.finish true accepted.ctx) ≡ some c =
      unfold ended in
      sym (ap (ended (cipher.finish true)) accepted.returns)
      ∙ streams.runs (take 16 key) iv xs
      ∙ e in
    let (enc, o, f, split) = collected_returns w (cipher.finish true accepted.ctx) c ran in
    let fed = hmac_update-Fed (mac_key key) (aad ++ w) o sealed.mac_ctx sealed.fed in
    let final : AuthCtx = record (init cipher key iv aad) {
      enc_ctx = accepted.ctx;
      mac_ctx = sealed.mac_ctx;
    } in
    let mac : hmac_finish (hmac_update sealed.mac_ctx o) ≡ tag key aad c =
      hmac_finish-tag key aad c (hmac_update sealed.mac_ctx o) h (
        subst (λ t. Fed (mac_key key) t (hmac_update sealed.mac_ctx o))
          (append_assoc aad w o ∙ ap (λ t. aad ++ t) (sym split)) fed) in
    rw
      (
        sealed.returns,
        ended,
        encrypt_finish_done cipher final enc o (tag key aad c) f mac,
        collected,
        ← append_assoc w o (tag key aad c),
        split,
      )
      refl
