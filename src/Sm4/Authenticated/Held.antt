-- ===== src/Sm4/Authenticated/Held.antt =====
-- What the decryption holds back: the last 32 bytes that it has been fed may be the MAC.
use gm_ssl.Base.{
  ℕ, ◌≤◌, ◌<◌, ◌⊎◌, inl, inr, length-take, length-append, arith, ◌≡◌, refl, sym, subst, ap, ap₂,
  ◌∙◌, List, [], ◌∷◌, ◌++◌,
}
use gm_ssl.Base.{joined, take, length, true, Option, append-nil, append_assoc}
use gm_ssl.Base.{take_all}
use gm_ssl.Sm3.Hmac.{HmacCtx, hmac_update}
use gm_ssl.Sm3.Hmac.Fed.{Fed, hmac_update-Fed}
use gm_ssl.Sm4.Blocks.{Ctx, done, feed}
use gm_ssl.Sm4.Blocks.Feed.{feed_cons, feed_last}
use gm_ssl.Sm4.Authenticated.{Cipher, AuthCtx, release}
use gm_ssl.Sm4.Authenticated.Ciphers.{Streams}
use gm_ssl.Sm4.Authenticated.Sealing.{mac_key}

joined-append : (xs ys : List (List ℕ)) → joined (xs ++ ys) ≡ joined xs ++ joined ys
joined-append [] ys = refl
joined-append (x ∷ xs) ys =
    ap (λ t. x ++ t) (joined-append xs ys) ∙ sym (append_assoc x (joined xs) (joined ys))

abbrev pub first : List (List ℕ) → List ℕ
first [] = []
first (x ∷ xs) = x

-- The caller sets `*outlen` to 0 ahead of every call, or does not rely on it, as more than a MAC
-- has been seen after the first call.
abbrev pub IsClear : ℕ → List ℕ → Type 0
IsClear outlen seen = (outlen ≡ 0) ⊎ (32 < length seen)

-- A whole MAC.
pub take_mac : (n : ℕ) (m : List ℕ) → n ≡ 32 → length m ≡ 32 → take n m ≡ m
take_mac n m e h = take_all n m (omega arith)

module _ (cipher : Cipher) (key iv aad : List ℕ) where
  -- The cipher and the MAC have been fed `front`.
  pub record Passed (front written : List ℕ) (enc_ctx : Ctx (List ℕ)) (mac_ctx : HmacCtx)
      : Type 0 where
    pub parts : List (List ℕ)
    pub all : joined parts ≡ front
    pub ran :
        feed (cipher.update true) (cipher.init (take 16 key) iv) parts [] ≡ done enc_ctx written
    pub fed : Fed (mac_key key) (aad ++ front) mac_ctx

  -- Of all that was seen, the front has been passed on, and the rest is held: 32 bytes, or fewer
  -- where nothing has been passed on.
  pub record Held (seen written : List ℕ) (ctx : AuthCtx) : Type 0 where
    pub front : List ℕ
    pub passed : Passed front written ctx.enc_ctx ctx.mac_ctx
    pub split : seen ≡ front ++ take ctx.maclen ctx.mac
    pub partial : ctx.maclen ≤ 32
    pub size : length ctx.mac ≡ 32
    pub full : (front ≡ []) ⊎ (ctx.maclen ≡ 32)

  pub all_seen :
      (seen written : List ℕ) (ctx : AuthCtx) (h : Held seen written ctx)
      → ctx.maclen ≡ 32
      → seen ≡ h.front ++ ctx.mac
  all_seen seen written ctx h full =
      h.split ∙ ap (λ t. h.front ++ t) (take_mac ctx.maclen ctx.mac full h.size)

  -- Where fewer than 32 bytes are held, nothing else has been seen.
  pub few_seen :
      (seen written : List ℕ) (ctx : AuthCtx)
      → Held seen written ctx
      → ctx.maclen < 32
      → length seen ≤ ctx.maclen
  few_seen seen written ctx h few = elim h.full [
    | inl nothing ↦ omega (
      arith,
      ap length h.split,
      ap length nothing,
      length-append h.front (take ctx.maclen ctx.mac),
      length-take ctx.maclen ctx.mac,
    )
    | inr all ↦ absurd (omega arith)
  ]

  pub record Released (front written : List ℕ) (ctx : AuthCtx) (x : List ℕ) : Type 0 where
    pub enc : Ctx (List ℕ)
    pub out : List ℕ
    pub returns :
        release cipher ctx x
        ≡ done (record ctx { enc_ctx = enc; mac_ctx = hmac_update ctx.mac_ctx x }) out
    pub passed : Passed (front ++ x) (written ++ out) enc (hmac_update ctx.mac_ctx x)

  release_done :
      (ctx : AuthCtx) (x : List ℕ) (enc : Ctx (List ℕ)) (out : List ℕ)
      → cipher.update true ctx.enc_ctx x ≡ done enc out
      → release cipher ctx x
        ≡ done (record ctx { enc_ctx = enc; mac_ctx = hmac_update ctx.mac_ctx x }) out
  unfolding release
  release_done ctx x enc out e = rw (e, release) refl

  module _ (whole : List ℕ → List ℕ → List ℕ → Option (List ℕ))
      (streams : Streams cipher whole) where
    pub release-Passed :
        (front written : List ℕ) (ctx : AuthCtx) (x : List ℕ)
        → Passed front written ctx.enc_ctx ctx.mac_ctx
        → Released front written ctx x
    unfolding feed
    release-Passed front written ctx x p =
        let next = p.parts ++ (x ∷ []) in
        let accepted = streams.accepts (take 16 key) iv next in
        let last =
          sym (
            feed_last (cipher.update true) (cipher.init (take 16 key) iv) p.parts (x ∷ []) []
              ctx.enc_ctx written p.ran)
          ∙ accepted.returns in
        let (enc, out, step, end) =
          feed_cons (cipher.update true) ctx.enc_ctx x [] written accepted.ctx accepted.written
            last in
        record {
          enc = enc;
          out = out;
          returns = release_done ctx x enc out step;
          passed = record {
            parts = next;
            all = joined-append p.parts (x ∷ []) ∙ ap₂ (λ s t. s ++ t) p.all (append-nil x);
            ran = accepted.returns ∙ sym end;
            fed =
                subst (λ t. Fed (mac_key key) t (hmac_update ctx.mac_ctx x))
                  (append_assoc aad front x)
                  (hmac_update-Fed (mac_key key) (aad ++ front) x ctx.mac_ctx p.fed);
          };
        }
